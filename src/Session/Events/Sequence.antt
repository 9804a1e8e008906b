-- ===== src/Session/Events/Sequence.antt =====
-- The sequence numbers and the ring under event dispatch (blemees_agent/session.py).
use blemees_agent.Prelude.{
  ◌∙◌, if◌then◌else◌, false, length, none, Bool-cases, is_some, from_option, All, All-append,
  All-map, ℕ, ◌+◌, ◌≤◌, ◌<◌, String, ◌≡◌, refl, ap, inl, inr, true, ◌||◌, some, List, [], ◌∷◌, ◌++◌,
  arith, ◌==◌,
}
use mathlib.Core.Path.{subst}
use mathlib.Core.List.{append_assoc, append-nil}
use blemees_agent.Notify.{Detail, agent_crashed, auth_required}
use blemees_agent.EventLog.{Frame, Event, result, error, needs_attention, attention_cleared, seq_of}
use blemees_agent.EventLog.Ring.{append}
use blemees_agent.EventLog.Ring.Window.{IsWindow, Ascends, append-IsWindow}
use blemees_agent.Session.{Session, Env}
use blemees_agent.Session.Events.Control.{publish_stream}
use blemees_agent.Session.Events.{
  stamp, publish, enter_attention, clear_attention, finish, stays_quiet, react, on_event, bare,
}

-- The ring is a window on the history of all frames that were published, whose numbers rise
-- strictly up to the session's.
pub record IsSequenced (s : Session) (history : List Frame) : Type 0 where
  pub window : IsWindow s.ring history
  pub ascends : Ascends 0 history
  pub bounded : All (λ f. seq_of f ≤ s.seq) history
  pub stamped : All (λ f. is_some f.seq ≡ true) history

pub Ascends-append :
    (lo hi : ℕ) (h : List Frame) (f : Frame)
    → Ascends lo h
    → All (λ x. seq_of x ≤ hi) h
    → lo ≤ hi
    → hi < seq_of f
    → Ascends lo (h ++ f ∷ [])
Ascends-append lo hi [] f a b le lt = (omega arith, tt)
Ascends-append lo hi (x ∷ h) f a b le lt = (a.0, Ascends-append (seq_of x) hi h f a.1 b.1 b.0 lt)

All-le_trans :
    (m n : ℕ) (h : List Frame) → m ≤ n → All (λ f. seq_of f ≤ m) h → All (λ f. seq_of f ≤ n) h
All-le_trans m n h le a = All-map (λ f. seq_of f ≤ m) (λ f. seq_of f ≤ n) h (λ f b. omega arith) a

-- One more frame with the next number.
IsSequenced-append :
    {s t : Session} {h : List Frame} (g : Frame)
    → g.seq ≡ some (s.seq + 1)
    → t.seq ≡ s.seq + 1
    → t.ring ≡ append s.ring g
    → IsSequenced s h
    → IsSequenced t (h ++ g ∷ [])
IsSequenced-append {s} {t} {h} g numbered up ring q =
    let n : seq_of g ≡ s.seq + 1 = ap (from_option 0) numbered in
    record {
      window = rw ring (append-IsWindow g q.window);
      ascends = Ascends-append 0 s.seq h g q.ascends q.bounded (omega arith) (omega arith);
      bounded =
          All-append _ h (g ∷ []) (All-le_trans s.seq t.seq h (omega arith) q.bounded)
            (omega arith, tt);
      stamped = All-append _ h (g ∷ []) q.stamped (ap is_some numbered, tt);
    }

-- Numbers may be passed over: the ring and the history stay.
pub IsSequenced-skip :
    {s t : Session} {h : List Frame}
    → s.seq ≤ t.seq
    → t.ring ≡ s.ring
    → IsSequenced s h
    → IsSequenced t h
IsSequenced-skip {s} {t} {h} le ring q = record {
  window = rw ring q.window;
  ascends = q.ascends;
  bounded = All-le_trans s.seq t.seq h le q.bounded;
  stamped = q.stamped;
}

seq-stamp : (s : Session) (f : Frame) → (stamp s f).seq ≡ some (s.seq + 1)
unfolding stamp
seq-stamp s f = refl

pub publish-IsSequenced :
    (env : Env) (f : Frame) {s : Session} {h : List Frame}
    → IsSequenced s h
    → IsSequenced (publish env f s).0 (h ++ stamp s f ∷ [])
publish-IsSequenced env f {s} q =
    let (up, ring) = publish_stream env f s in
    IsSequenced-append (stamp s f) (seq-stamp s f) up ring q

-- The session `t` holds the history `h` and some more: a frame for every number after `n`.
abbrev pub Continued : ℕ → List Frame → Session → Type 0
Continued n h t = (new : List Frame) × IsSequenced t (h ++ new) × (t.seq ≡ n + length new)

Continued-none :
    {s : Session} {h : List Frame} (n : ℕ) → s.seq ≡ n → IsSequenced s h → Continued n h s
Continued-none {h = h} n e q = ([], rw append-nil q, omega (arith, e))

pub publish-Continued :
    (env : Env) (f : Frame) {s : Session} {h : List Frame}
    → IsSequenced s h
    → Continued s.seq h (publish env f s).0
publish-Continued env f {s} q =
    (stamp s f ∷ [], publish-IsSequenced env f q, (publish_stream env f s).0)

pub enter_attention-Continued :
    (env : Env) (reason : String) (detail : Detail) {s : Session} {h : List Frame}
    → IsSequenced s h
    → Continued s.seq h (enter_attention env reason detail s).0
unfolding enter_attention
enter_attention-Continued env reason detail {s} q = elim (Bool-cases (stays_quiet s reason)) [
  | inl quiet ↦ rw (quiet, enter_attention) (Continued-none s.seq refl q)
  | inr loud ↦
      rw (loud, enter_attention)
        (publish-Continued env (bare (needs_attention reason))
          (IsSequenced-skip (omega arith) refl q))
]

-- The frame that tells that attention is cleared, after the number `n`.
abbrev pub cleared : ℕ → Session → List Frame
cleared n s =
    if s.needs_attention
    then record { session_id = some s.session_id; seq = some (n + 1); event = attention_cleared }
      ∷ []
    else []

pub clear_attention-IsSequenced :
    (env : Env) {s : Session} {h : List Frame}
    → IsSequenced s h
    → IsSequenced (clear_attention env s).0 (h ++ cleared s.seq s)
      × ((clear_attention env s).0.seq ≡ s.seq + length (cleared s.seq s))
unfolding clear_attention stamp
clear_attention-IsSequenced env {s} q = elim (Bool-cases s.needs_attention) [
  | inl flagged ↦
      let calm = record s { needs_attention = false; attention_reason = none } in
      rw (flagged, clear_attention)
        (
          publish-IsSequenced env (bare attention_cleared) {s = calm}
              (IsSequenced-skip {s = s} (omega arith) refl q),
          (publish_stream env (bare attention_cleared) calm).0,
        )
  | inr calm ↦
      rw (calm, clear_attention)
        (rw append-nil (IsSequenced-skip {s = s} (omega arith) refl q), omega arith)
]

finish_stream : (s : Session) → ((finish s).0.seq ≡ s.seq) × ((finish s).0.ring ≡ s.ring)
unfolding finish
finish_stream s = ground arith

finish-Continued :
    (n : ℕ) (h : List Frame) {s : Session} → Continued n h s → Continued n h (finish s).0
finish-Continued n h {s} (new, q, e) =
    let (up, ring) = finish_stream s in (new, IsSequenced-skip (omega arith) ring q, up ∙ e)

react-Continued :
    (env : Env) (e : Event) {s : Session} {h : List Frame}
    → IsSequenced s h
    → Continued s.seq h (react env e s).0
unfolding react
react-Continued env (result stop usage) {s} {h} q =
    finish-Continued s.seq h (enter_attention-Continued env _ _ q)
react-Continued env (error code message) {s} q =
    elim (Bool-cases (code == agent_crashed || code == auth_required)) [
      | inl known ↦ rw (known, react) (enter_attention-Continued env code _ q)
      | inr unknown ↦ rw (unknown, react) (Continued-none s.seq refl q)
    ]
react-Continued env _ {s} q = Continued-none s.seq refl q

-- Every event is recorded: the history that the ring is a window on goes on with the event's frame
-- under the next number, and then with one frame for each further number that was taken, in
-- rising order.
pub on_event-Continued :
    (env : Env) (f : Frame) {s : Session} {h : List Frame}
    → IsSequenced s h
    → (new : List Frame) × IsSequenced (on_event env f s).0 (h ++ stamp s f ∷ new)
      × ((on_event env f s).0.seq ≡ s.seq + 1 + length new)
unfolding on_event
on_event-Continued env f {s} {h} q =
    let t = (publish env f s).0 in
    let (new, r, e) = react-Continued env f.event (publish-IsSequenced env f q) in
    (
      new,
      subst (IsSequenced (on_event env f s).0) (append_assoc h (stamp s f ∷ []) new) r,
      omega (arith, e, (publish_stream env f s).0),
    )
