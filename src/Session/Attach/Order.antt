-- ===== src/Session/Attach/Order.antt =====
-- The order of what `attach` of blemees_agent/session.py sends, and the numbers that it takes.
use blemees_agent.Prelude.{
  if◌then◌else◌, is_some, false, true, ◌∙◌, ◌++◌, ◌⊎◌, ◌+◌, ltb, ltb→lt, lt→ltb, Bool-cases, length,
  drop, keep_if, All, ℕ, zero, suc, ◌-◌, ◌≤◌, ◌≡◌, refl, sym, ap, inl, inr, Bool, Option, none,
  some, List, [], ◌∷◌, arith,
}
use mathlib.Core.Path.{subst}
use blemees_agent.EventLog.{Frame, seq_of}
use blemees_agent.EventLog.Ring.{since}
use blemees_agent.EventLog.Ring.Window.{Ascends}
use blemees_agent.Session.{Session, Env}
use blemees_agent.Session.Events.Sequence.{
  IsSequenced, IsSequenced-skip, Ascends-append, cleared, clear_attention-IsSequenced,
}
use blemees_agent.Session.Events.{clear_attention}
use blemees_agent.Session.Attach.{
  Gap, send_all, gap_frame, replay_frames, after_replay, replay_to, take_over, attach, gap_of,
}
use blemees_agent.Session.Attach.Replay.{held-All}

all_kept :
    (seen lo : ℕ) (fs : List Frame)
    → seen ≤ lo
    → Ascends lo fs
    → keep_if (λ f. ltb seen (seq_of f)) fs ≡ fs
all_kept seen lo [] le a = refl
all_kept seen lo (x ∷ fs) le a =
    rw (lt→ltb seen (seq_of x) (omega arith))
      (ap (λ r. x ∷ r) (all_kept seen (seq_of x) fs (omega arith) a.1))

Ascends-keep_if :
    (seen lo : ℕ) (fs : List Frame)
    → Ascends lo fs
    → Ascends seen (keep_if (λ f. ltb seen (seq_of f)) fs)
Ascends-keep_if seen lo [] a = tt
Ascends-keep_if seen lo (x ∷ fs) a = elim (Bool-cases (ltb seen (seq_of x))) [
  | inl late ↦ rw late (
    ltb→lt seen (seq_of x) late,
    subst (Ascends (seq_of x))
        (sym (all_kept seen (seq_of x) fs (omega (arith, ltb→lt seen (seq_of x) late)) a.1)) a.1,
  )
  | inr early ↦ rw early (Ascends-keep_if seen (seq_of x) fs a.1)
]

Ascends-drop : (lo k : ℕ) (fs : List Frame) → Ascends lo fs → (m : ℕ) × Ascends m (drop k fs)
Ascends-drop lo zero fs a = (lo, a)
Ascends-drop lo (suc k) [] a = (lo, a)
Ascends-drop lo (suc k) (x ∷ fs) a = Ascends-drop (seq_of x) k fs a.1

since-Ascends :
    {s : Session} {h : List Frame} (seen : ℕ) → IsSequenced s h → Ascends seen (since s.ring seen)
unfolding since
since-Ascends {s} {h} seen q =
    let (m, a) = Ascends-drop 0 (length h - s.ring.capacity) h q.ascends in
    rw q.window.last (Ascends-keep_if seen m _ a)

All-keep_if :
    (P : Frame → Type 0) (p : Frame → Bool) (fs : List Frame) → All P fs → All P (keep_if p fs)
All-keep_if P p [] a = tt
All-keep_if P p (x ∷ fs) a = elim (Bool-cases (p x)) [
  | inl kept ↦ rw kept (a.0, All-keep_if P p fs a.1)
  | inr out ↦ rw out (All-keep_if P p fs a.1)
]

-- A connection that has seen no more than was published receives the replay, the notice of a gap
-- included, with strictly rising numbers, each above the last number that it saw.
pub replay-Ascends :
    {s : Session} {h : List Frame} (seen : ℕ) (o : Option Gap)
    → IsSequenced s h
    → seen ≤ s.seq
    → Ascends seen (replay_frames s seen o)
unfolding replay_frames
replay-Ascends seen none q le = since-Ascends seen q
replay-Ascends {s} seen (some gap) q le =
    Ascends-append seen s.seq (since s.ring seen) (gap_frame s seen gap) (since-Ascends seen q)
      (unfold since in All-keep_if _ _ s.ring.buf (held-All _ q q.bounded)) le (omega arith)

send_all_prefix :
    (takes : Frame → Bool) (c k : ℕ) (fs gs : List Frame)
    → (send_all takes c (fs ++ gs)).1 ≡ true
    → (send_all takes k fs).1 ≡ true
unfolding send_all
send_all_prefix takes c k [] gs h = refl
send_all_prefix takes c k (f ∷ fs) gs h = elim (Bool-cases (takes f)) [
  | inl took ↦ rw took (send_all_prefix takes c k fs gs (rw took at h))
  | inr refused ↦ let bad : false ≡ true = rw refused at h in cc
]

after_replay-IsSequenced :
    {s : Session} {h : List Frame} (takes : Frame → Bool) (seen : ℕ) (o : Option Gap)
    → IsSequenced s h
    → IsSequenced (after_replay takes s seen o) h
unfolding after_replay
after_replay-IsSequenced takes seen none q = q
after_replay-IsSequenced {s} takes seen (some gap) q =
    elim (Bool-cases (send_all takes 0 (since s.ring seen)).1) [
      | inl sent ↦ rw sent (IsSequenced-skip (omega arith) refl q)
      | inr raised ↦ rw raised q
    ]

send_all-refused :
    (takes : Frame → Bool) (c : ℕ) (fs : List Frame)
    → (send_all takes c fs).1 ≡ false
    → (f : Frame) × (takes f ≡ false)
unfolding send_all
send_all-refused takes c [] h = cc
send_all-refused takes c (f ∷ fs) h = elim (Bool-cases (takes f)) [
  | inl took ↦ send_all-refused takes c fs (rw took at h)
  | inr refused ↦ (f, refused)
]

-- The writer of `c` raised on a frame, and the history is as before.
pub record IsRefused (env : Env) (c : ℕ) (t : Session) (h : List Frame) : Type 0 where
  pub frame : Frame
  pub refused : env.accepts c frame ≡ false
  pub kept : IsSequenced t h

-- How many notices of a gap an attaching connection gets.
abbrev pub notices : Session → Option ℕ → ℕ
notices s none = 0
notices s (some seen) = if is_some (gap_of s seen) then 1 else 0

-- The notice has taken a number, and the frame that tells of the end of attention is recorded under
-- the number after it.
pub record IsAttached (env : Env) (c : ℕ) (seen : Option ℕ) (s t : Session) (h : List Frame)
    : Type 0 where
  pub recorded : IsSequenced t (h ++ cleared (s.seq + notices s seen) s)
  pub numbered : t.seq ≡ s.seq + notices s seen + length (cleared (s.seq + notices s seen) s)

seq-after_replay :
    (takes : Frame → Bool) (c seen : ℕ) (o : Option Gap) (s : Session)
    → (send_all takes c (replay_frames s seen o)).1 ≡ true
    → ((after_replay takes s seen o).seq ≡ s.seq + (if is_some o then 1 else 0))
      × ((after_replay takes s seen o).needs_attention ≡ s.needs_attention)
      × ((after_replay takes s seen o).session_id ≡ s.session_id)
unfolding after_replay replay_frames
seq-after_replay takes c seen none s h = (omega arith, refl, refl)
seq-after_replay takes c seen (some gap) s h =
    rw (send_all_prefix takes c 0 (since s.ring seen) (gap_frame s seen gap ∷ []) h)
      (refl, refl, refl)

clear_after-IsSequenced :
    (env : Env) (n : ℕ) (s t : Session) {h : List Frame}
    → t.seq ≡ n
    → t.needs_attention ≡ s.needs_attention
    → t.session_id ≡ s.session_id
    → IsSequenced t h
    → IsSequenced (clear_attention env t).0 (h ++ cleared n s)
      × ((clear_attention env t).0.seq ≡ n + length (cleared n s))
clear_after-IsSequenced env n s t {h} number flag name q =
    let (recorded, up) = clear_attention-IsSequenced env q in
    let e : cleared t.seq t ≡ cleared n s = rw (number, flag, name) refl in
    (
      subst (λ fs. IsSequenced (clear_attention env t).0 (h ++ fs)) e recorded,
      up ∙ ap (λ fs. t.seq + length fs) e ∙ ap (λ m. m + length (cleared n s)) number,
    )

-- Attaching keeps the ring a window on the history, with rising numbers: the notice of a gap takes
-- a number of its own, and where the session was flagged, the frame that tells of the end of
-- attention is recorded under the number after it. Nothing is recorded where the writer raised.
pub attach-IsSequenced :
    (env : Env) (c : ℕ) (seen : Option ℕ) {s : Session} {h : List Frame}
    → IsSequenced s h
    → IsRefused env c (attach env c seen s).0 h ⊎ IsAttached env c seen s (attach env c seen s).0 h
unfolding attach
attach-IsSequenced env c none {s} q =
    let (r, e) =
      clear_after-IsSequenced env (s.seq + 0) s (take_over c s) (omega arith) refl refl
        (IsSequenced-skip (omega arith) refl q) in
    inr (record { recorded = r; numbered = e })
attach-IsSequenced env c (some seen) {s} {h} q =
    let o = take_over c s in
    let gap = gap_of o seen in
    let replayed = replay_frames o seen gap in
    let a = after_replay (env.accepts c) o seen gap in
    let kept : IsSequenced a h =
      after_replay-IsSequenced (env.accepts c) seen gap (IsSequenced-skip (omega arith) refl q) in
    elim (Bool-cases (send_all (env.accepts c) c replayed).1) [
      | inr raised ↦
          let (f, refused) = send_all-refused (env.accepts c) c replayed raised in
          inl (record { frame = f; refused = refused; kept = unfold replay_to in rw raised kept })
      | inl sent ↦
          let (number, flag, name) = seq-after_replay (env.accepts c) c seen gap o sent in
          let (r, e) =
            clear_after-IsSequenced env (s.seq + notices s (some seen)) s a
              (unfold gap_of in number) flag name kept in
          inr (record {
            recorded = unfold replay_to in rw sent r;
            numbered = unfold replay_to in rw sent e;
          })
    ]
