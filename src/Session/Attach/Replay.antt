-- ===== src/Session/Attach/Replay.antt =====
-- What a connection receives when it attaches (blemees_agent/session.py, `attach`).
use blemees_agent.Prelude.{
  ◌∙◌, sym, lt→ltb, is_some, from_option, length, head?, All, All-drop, In, ℕ, ◌+◌, ◌-◌, ◌<◌, ◌≡◌,
  refl, ap, ◌⊎◌, inl, inr, Bool, true, Option, none, some, List, [], ◌∷◌, ◌++◌, map, arith,
}
use mathlib.Core.Path.{subst}
use blemees_agent.EventLog.{Frame, seq_of, replay_gap}
use blemees_agent.EventLog.Ring.{since, earliest_seq}
use blemees_agent.EventLog.Ring.Window.{since-covers}
use blemees_agent.Session.{Session, Effect, send, Env}
use blemees_agent.Session.Events.Sequence.{IsSequenced, IsSequenced-skip}
use blemees_agent.Session.Attach.{
  Summary, Gap, Attached, send_all, ring_gap, gap_of, gap_frame, replay_frames, after_replay,
  replay_to, clear_and_return, take_over, attach, summary_of,
}

-- A writer that raises on nothing takes every frame, in order.
send_all_open :
    (takes : Frame → Bool) (c : ℕ) (fs : List Frame)
    → ((f : Frame) → takes f ≡ true)
    → send_all takes c fs ≡ (map (send c) fs, true)
unfolding send_all
send_all_open takes c [] open_writer = refl
send_all_open takes c (f ∷ fs) open_writer =
    rw (open_writer f, send_all_open takes c fs open_writer)

In-map : (c : ℕ) (f : Frame) (fs : List Frame) → In f fs → In (send c f) (map (send c) fs)
In-map c f [] i = elim i [ ]
In-map c f (x ∷ fs) (inl e) = inl (ap (send c) e)
In-map c f (x ∷ fs) (inr i) = inr (In-map c f fs i)

pub In-append_left : {A : Type 0} (a : A) (xs ys : List A) → In a xs → In a (xs ++ ys)
In-append_left a [] ys i = elim i [ ]
In-append_left a (x ∷ xs) ys (inl e) = inl e
In-append_left a (x ∷ xs) ys (inr i) = inr (In-append_left a xs ys i)

In-append_last : {A : Type 0} (a : A) (xs : List A) → In a (xs ++ a ∷ [])
In-append_last a [] = inl refl
In-append_last a (x ∷ xs) = inr (In-append_last a xs)

-- To a writer that raises on nothing, the whole replay is sent, and the method goes on.
pub replay_to_open :
    (env : Env) (c seen : ℕ) (gap : Option Gap) (next : Session → List Effect → Summary → Attached)
    (s : Session)
    → ((f : Frame) → env.accepts c f ≡ true)
    → replay_to env c seen gap next s
      ≡ next
          (after_replay (env.accepts c) s seen gap)
          (map (send c) (replay_frames s seen gap))
          (summary_of (length (since s.ring seen)) gap)
unfolding replay_to
replay_to_open env c seen gap next s open_writer =
    rw (send_all_open (env.accepts c) c (replay_frames s seen gap) open_writer)

-- A frame older than the first one held lies in the announced gap.
ring_gap-covers :
    (e seen n : ℕ)
    → seen < n
    → n < e
    → (gap : Gap) × (ring_gap (some e) seen ≡ some gap) × (gap.first_available ≡ e)
unfolding ring_gap
ring_gap-covers e seen n late old = (
  record { first_available = e; from = seen + 1; to = e - 1 },
  rw (lt→ltb (seen + 1) e (omega arith)),
  refl,
)

pub held-All :
    {s : Session} {h : List Frame} (P : Frame → Type 0)
    → IsSequenced s h
    → All P h
    → All P s.ring.buf
held-All {s} {h} P q a = rw q.window.last (All-drop P (length h - s.ring.capacity) h a)

All-head : (P : Frame → Type 0) (e : Frame) (fs : List Frame) → All P fs → head? fs ≡ some e → P e
All-head P e [] a h = cc
All-head P e (x ∷ fs) a h = subst P (ap (from_option x) h) a.0

seq-stamped : (f : Frame) → is_some f.seq ≡ true → f.seq ≡ some (seq_of f)
seq-stamped f h = ground arith

-- The number of the first frame that the ring holds.
earliest_seq_lem :
    {s : Session} {h : List Frame} (e : Frame)
    → IsSequenced s h
    → head? s.ring.buf ≡ some e
    → earliest_seq s.ring ≡ some (seq_of e)
unfolding earliest_seq
earliest_seq_lem {s} e q first =
    rw (first, earliest_seq)
      (seq-stamped e (All-head _ e s.ring.buf (held-All _ q q.stamped) first))

-- With rising numbers, a frame after `seen` is replayed or lies in the announced gap.
pub gap_of-covers :
    {s : Session} {h : List Frame} (seen : ℕ) (f : Frame)
    → IsSequenced s h
    → In f h
    → seen < seq_of f
    → In f (since s.ring seen)
      ⊎ ((gap : Gap) × (gap_of s seen ≡ some gap)
          × (earliest_seq s.ring ≡ some gap.first_available)
          × (seq_of f < gap.first_available))
unfolding gap_of
gap_of-covers {s} {h} seen f q i late = elim (since-covers 0 seen f q.window q.ascends i late) [
  | inl held ↦ inl held
  | inr (e, first, older) ↦
      let (gap, found, available) = ring_gap-covers (seq_of e) seen (seq_of f) late older in
      inr (
        gap,
        rw (earliest_seq_lem e q first, found),
        earliest_seq_lem e q first ∙ ap some (sym available),
        omega arith,
      )
]

gap_frame-In :
    (s : Session) (seen : ℕ) (gap : Gap) (o : Option Gap)
    → o ≡ some gap
    → In (gap_frame s seen gap) (replay_frames s seen o)
unfolding replay_frames
gap_frame-In s seen gap o e = rw e (In-append_last (gap_frame s seen gap) (since s.ring seen))

replayed-In :
    (s : Session) (seen : ℕ) (f : Frame) (o : Option Gap)
    → In f (since s.ring seen)
    → In f (replay_frames s seen o)
unfolding replay_frames
replayed-In s seen f none i = i
replayed-In s seen f (some gap) i = In-append_left f (since s.ring seen) _ i

-- Nothing is lost in silence: of all the frames that a session ever published, each one that the
-- connection has not seen is sent to it when it attaches, or a notice of a gap is sent to it that
-- names as the first number available a later one: that of the first frame that the ring holds.
-- The writer must not raise.
pub attach-covers :
    (env : Env) (c seen : ℕ) (s : Session) (h : List Frame) (f : Frame)
    → IsSequenced s h
    → ((x : Frame) → env.accepts c x ≡ true)
    → In f h
    → seen < seq_of f
    → In (send c f) (attach env c (some seen) s).1
      ⊎ ((n : ℕ) × (earliest_seq s.ring ≡ some n)
          × (seq_of f < n)
          × In
              (send c (record {
                session_id = some s.session_id;
                seq = some (s.seq + 1);
                event = replay_gap seen n;
              }))
              (attach env c (some seen) s).1)
unfolding attach
attach-covers env c seen s h f q open_writer i late =
    let t = take_over c s in
    let found : (x : Frame)
        → In x (replay_frames t seen (gap_of t seen))
        → In (send c x) (attach env c (some seen) s).1 =
      λ x j.
        rw (replay_to_open env c seen (gap_of t seen) (clear_and_return env) t open_writer)
          (In-append_left (send c x) _ _ (In-map c x _ j)) in
    elim (gap_of-covers seen f (IsSequenced-skip {t = t} (omega arith) refl q) i late) [
      | inl held ↦ inl (found f (replayed-In t seen f (gap_of t seen) held))
      | inr (gap, e, first, older) ↦ inr (
        gap.first_available,
        first,
        older,
        found (gap_frame s seen gap) (gap_frame-In t seen gap _ e),
      )
    ]
