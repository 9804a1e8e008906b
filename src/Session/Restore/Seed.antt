-- ===== src/Session/Restore/Seed.antt =====
-- The numbers of a session that goes on after a restart (blemees_agent/session.py).
use blemees_agent.Prelude.{
  ltb, if◌then◌else◌, lt→ltb, Bool-cases, is_some, from_option, length, drop, last?, All, All-drop,
  All-map, ℕ, zero, suc, ◌≤◌, ◌<◌, String, ◌≡◌, refl, sym, ap, ◌∙◌, inl, inr, true, Option, none,
  some, List, [], ◌∷◌, ◌++◌, arith,
}
use mathlib.Core.Path.{subst}
use blemees_agent.EventLog.{Frame, seq_of}
use blemees_agent.EventLog.Ring.{RingBuffer, init, push, append, extend, latest_seq}
use blemees_agent.EventLog.Ring.Window.{Ascends, extend-IsWindow, init-IsWindow}
use blemees_agent.Session.{Session, new_session}
use blemees_agent.Session.Events.Sequence.{IsSequenced, IsSequenced-skip}
use blemees_agent.Value.{Value}
use blemees_agent.Session.Restore.{seed, load_usage_sidecar, enable_durable_log}

last-snoc : (xs : List Frame) (f : Frame) → last? (xs ++ f ∷ []) ≡ some f
last-snoc [] f = refl
last-snoc (x ∷ []) f = refl
last-snoc (x ∷ y ∷ xs) f = last-snoc (y ∷ xs) f

-- The frame that was appended last is the ring's last one.
last-push : (n : ℕ) (buf : List Frame) (f : Frame) → 0 < n → last? (push n buf f) ≡ some f
unfolding push
last-push n [] f positive = rw (lt→ltb 0 n positive) refl
last-push n (x ∷ xs) f positive = elim (Bool-cases (ltb (length (x ∷ xs)) n)) [
  | inl room ↦ rw room (last-snoc (x ∷ xs) f)
  | inr full ↦ rw full (last-snoc xs f)
]

-- The number of the ring's last frame is the greatest of those that it was extended by.
pub record IsLatest (m : ℕ) (fs : List Frame) (o : Option ℕ) : Type 0 where
  pub latest : ℕ
  pub found : o ≡ some latest
  pub above : m ≤ latest
  pub bounds : All (λ f. seq_of f ≤ latest) fs

stamped_seq : (f : Frame) → is_some f.seq ≡ true → f.seq ≡ some (seq_of f)
stamped_seq f h = ground arith

IsLatest-extend :
    (fs : List Frame) (r : RingBuffer) (g : Frame)
    → 0 < r.capacity
    → last? r.buf ≡ some g
    → is_some g.seq ≡ true
    → Ascends (seq_of g) fs
    → All (λ f. is_some f.seq ≡ true) fs
    → IsLatest (seq_of g) fs (latest_seq (extend r fs))
unfolding extend latest_seq append
IsLatest-extend [] r g positive last stamped a n = record {
  latest = seq_of g;
  found = ap (λ o. elim o [ none ↦ none | some f ↦ f.seq ]) last ∙ stamped_seq g stamped;
  above = omega arith;
  bounds = tt;
}
IsLatest-extend (f ∷ fs) r g positive last stamped a n =
    let rest =
      IsLatest-extend fs (append r f) f positive (last-push r.capacity r.buf f positive) n.0 a.1
        n.1 in
    record {
      latest = rest.latest;
      found = rest.found;
      above = omega (arith, a.0, rest.above);
      bounds = (rest.above, rest.bounds);
    }

higher : (a b : ℕ) → a ≤ (if ltb b a then a else b)
higher a b = ground arith

-- A new session that is seeded is sequenced on the frames that it is seeded with.
pub seed-IsSequenced :
    (id : String) (cwd : Option String) (n now : ℕ) (prior : List Frame)
    → Ascends 0 prior
    → All (λ f. is_some f.seq ≡ true) prior
    → IsSequenced (seed prior (new_session id cwd n now)) prior
unfolding seed new_session append extend
seed-IsSequenced id cwd n now [] a stamped = record {
  window = init-IsWindow n;
  ascends = tt;
  bounded = tt;
  stamped = tt;
}
seed-IsSequenced id cwd n now (f ∷ fs) a stamped =
    let w = init-IsWindow n in
    let top =
      IsLatest-extend fs (append (init n) f) f w.positive
        (last-push (init n).capacity [] f w.positive) stamped.0 a.1 stamped.1 in
    let high : top.latest ≤ (seed (f ∷ fs) (new_session id cwd n now)).seq =
      subst (λ o. top.latest ≤ (if ltb 0 (from_option 0 o) then from_option 0 o else 0))
        (sym top.found) (higher top.latest 0) in
    record {
      window = extend-IsWindow (f ∷ fs) w;
      ascends = a;
      bounded = (
        omega (arith, top.above, high),
        All-map _ _ fs (λ g b. omega (arith, high, b)) top.bounds,
      );
      stamped = stamped;
    }

Ascends-weaken : (lo hi : ℕ) (h : List Frame) → lo ≤ hi → Ascends hi h → Ascends lo h
Ascends-weaken lo hi [] le a = tt
Ascends-weaken lo hi (f ∷ h) le a = (omega (arith, a.0), a.1)

Ascends-drop : (lo k : ℕ) (h : List Frame) → Ascends lo h → Ascends lo (drop k h)
Ascends-drop lo zero h a = a
Ascends-drop lo (suc k) [] a = tt
Ascends-drop lo (suc k) (f ∷ h) a =
    Ascends-drop lo k h (Ascends-weaken lo (seq_of f) h (omega (arith, a.0)) a.1)

load_usage_sidecar-stream :
    (sidecar : Option Value) (s : Session)
    → ((load_usage_sidecar sidecar s).seq ≡ s.seq) × ((load_usage_sidecar sidecar s).ring ≡ s.ring)
unfolding load_usage_sidecar
load_usage_sidecar-stream sidecar s = (ground arith, ground arith)

-- After a restart a session goes on from its durable log: where the end of the history of an
-- earlier session of the id is read from the log, the new session is again sequenced on what was
-- read, so that its next frame gets a number above all of those.
pub enable_durable_log-IsSequenced :
    (id : String) (cwd : Option String) (n now k : ℕ) (read : ℕ → Option (List Frame))
    (history file : List Frame) (sidecar : Option Value) (old : Session)
    → IsSequenced old history
    → read (new_session id cwd n now).ring.capacity ≡ some (drop k history)
    → IsSequenced (enable_durable_log read file sidecar (new_session id cwd n now)) (drop k history)
unfolding enable_durable_log
enable_durable_log-IsSequenced id cwd n now k read history file sidecar old q was_read =
    let s = new_session id cwd n now in
    let prior = drop k history in
    let seeded =
      seed-IsSequenced id cwd n now prior (Ascends-drop 0 k history q.ascends)
        (All-drop _ k history q.stamped) in
    let logged = record (seed prior s) { log = some file } in
    let same = load_usage_sidecar-stream sidecar logged in
    subst
      (λ o.
        IsSequenced
          (load_usage_sidecar sidecar (record (seed (from_option [] o) s) { log = some file }))
          prior)
      (sym was_read)
      (IsSequenced-skip (omega (arith, same.0)) same.1
        (IsSequenced-skip {t = logged} (omega arith) refl seeded))
