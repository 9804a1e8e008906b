-- ===== src/Daemon/Ownership/Sessions.antt =====
-- What the daemon's changes of a session (blemees_agent/session.py, blemees_agent/daemon.py) do to
-- its owner.
use blemees_agent.Prelude.{
  Bool-cases, any_of, Dict, lookup, ℕ, String, ◌≡◌, refl, ◌∙◌, inl, inr, Bool, true, ◌||◌, Option,
  none, some, List, arith, ◌==◌,
}
use blemees_agent.Value.{Value}
use blemees_agent.EventLog.{Frame}
use blemees_agent.Notify.{
  Detail, turn_complete, turn_finished, agent_crashed, auth_required, agent_error,
}
use blemees_agent.EventLog.Ring.{earliest_seq}
use blemees_agent.EventLog.{Event, result, error, needs_attention, attention_cleared}
use blemees_agent.Session.{Session, Env, Decision, Waiter, Effect}
use blemees_agent.Session.Attach.{
  attach, add_watcher, remove_watcher, take_over, replay_to, after_replay, Gap, Summary, Attached,
  gap_of, ring_gap, watch_from, send_all, replay_frames, clear_and_return,
}
use blemees_agent.Session.Events.{
  push_watchers, enter_attention, react, on_event, finish, publish, stays_quiet, clear_attention,
  bare, stop_of, or_none,
}
use blemees_agent.Session.Events.Attention.{calmed, clear_attention_flagged, clear_attention_calm}
use blemees_agent.Session.Events.Control.{SameControl, SameControl-publish}
use blemees_agent.Session.Permission.{resolve_permission, resolve_waiter}
use blemees_agent.Session.Title.{record_user_message}

-- The session `t` is `s` under the same owner.
pub record IsSame (s t : Session) : Type 0 where
  pub session_id : t.session_id ≡ s.session_id
  pub connection_id : t.connection_id ≡ s.connection_id

pub IsSame-refl : (s : Session) → IsSame s s
IsSame-refl s = record { session_id = refl; connection_id = refl }

pub IsSame-trans : {s t u : Session} → IsSame s t → IsSame t u → IsSame s u
IsSame-trans a b = record {
  session_id = b.session_id ∙ a.session_id;
  connection_id = b.connection_id ∙ a.connection_id;
}

IsSame-control : {s t : Session} → SameControl s t → IsSame s t
IsSame-control c = record { session_id = c.session_id; connection_id = c.connection_id }

pub record_user_message-IsSame :
    (message : Dict Value) (s : Session) → IsSame s (record_user_message message s)
unfolding record_user_message
record_user_message-IsSame message s = record {
  session_id = ground arith;
  connection_id = ground arith;
}

resolve_waiter-IsSame :
    (id : String) (d : Decision) (o : Option Waiter) (s : Session)
    → IsSame s (resolve_waiter id d o s).0
unfolding resolve_waiter
resolve_waiter-IsSame id d none s = IsSame-refl s
resolve_waiter-IsSame id d (some w) s = record {
  session_id = ground arith;
  connection_id = ground arith;
}

pub resolve_permission-IsSame :
    (id : String) (d : Decision) (s : Session) → IsSame s (resolve_permission id d s).0
unfolding resolve_permission
resolve_permission-IsSame id d s = elim (Bool-cases (any_of (λ j. j == id) s.pending_permissions)) [
  | inl pending ↦ rw pending (resolve_waiter-IsSame id d (lookup id s.waiters) s)
  | inr unknown ↦ rw unknown (IsSame-refl s)
]

pub push_watchers-IsSame :
    (env : Env) (f : Frame) (s : Session) → IsSame s (push_watchers env f s).0
unfolding push_watchers
push_watchers-IsSame env f s = record { session_id = refl; connection_id = refl }

pub remove_watcher-IsSame : (c : ℕ) (s : Session) → IsSame s (remove_watcher c s).0
unfolding remove_watcher
remove_watcher-IsSame c s = record { session_id = refl; connection_id = refl }

after_replay-IsSame :
    (takes : Frame → Bool) (s : Session) (seen : ℕ) (o : Option Gap)
    → IsSame s (after_replay takes s seen o)
unfolding after_replay
after_replay-IsSame takes s seen none = IsSame-refl s
after_replay-IsSame takes s seen (some gap) = record {
  session_id = ground arith;
  connection_id = ground arith;
}

clear_attention-IsSame : (env : Env) (s : Session) → IsSame s (clear_attention env s).0
clear_attention-IsSame env s = elim (Bool-cases s.needs_attention) [
  | inl flagged ↦
      let c = SameControl-publish env (bare attention_cleared) (calmed s) in
      rw (clear_attention_flagged env s flagged)
        (record { session_id = c.session_id; connection_id = c.connection_id })
  | inr calm ↦ rw (clear_attention_calm env s calm) (IsSame-refl s)
]

-- A replay, and what comes after it where the writer took everything.
replay_to-IsSame :
    (env : Env) (c seen : ℕ) (gap : Option Gap) (next : Session → List Effect → Summary → Attached)
    (s : Session)
    → ((t : Session) (es : List Effect) (m : Summary) → IsSame t (next t es m).0)
    → IsSame s (replay_to env c seen gap next s).0
unfolding replay_to
replay_to-IsSame env c seen gap next s keeps =
    let f = after_replay-IsSame (env.accepts c) s seen gap in
    elim (Bool-cases (send_all (env.accepts c) c (replay_frames s seen gap)).1) [
      | inl sent ↦ rw (sent, replay_to) (IsSame-trans f (keeps _ _ _))
      | inr raised ↦ rw (raised, replay_to) f
    ]

pub add_watcher-IsSame :
    (env : Env) (c : ℕ) (seen : Option ℕ) (s : Session) → IsSame s (add_watcher env c seen s).0
unfolding add_watcher
add_watcher-IsSame env c none s = record { session_id = refl; connection_id = refl }
add_watcher-IsSame env c (some seen) s =
    IsSame-trans (record { session_id = refl; connection_id = refl })
      (replay_to-IsSame env c seen (ring_gap (earliest_seq s.ring) seen)
        (λ t es summary. (t, es, some summary)) (watch_from c s) (λ t es m. IsSame-refl t))

-- The one that attaches is the owner.
pub attach-IsSame :
    (env : Env) (c : ℕ) (seen : Option ℕ) (s : Session)
    → IsSame (take_over c s) (attach env c seen s).0
unfolding attach
attach-IsSame env c none s = clear_attention-IsSame env (take_over c s)
attach-IsSame env c (some seen) s =
    replay_to-IsSame env c seen (gap_of (take_over c s) seen) (clear_and_return env) (take_over c s)
      (λ t es m. clear_attention-IsSame env t)

enter_attention-IsSame :
    (env : Env) (reason : String) (detail : Detail) (s : Session)
    → IsSame s (enter_attention env reason detail s).0
unfolding enter_attention
enter_attention-IsSame env reason detail s = elim (Bool-cases (stays_quiet s reason)) [
  | inl quiet ↦ rw quiet (IsSame-refl s)
  | inr loud ↦
      let c =
        SameControl-publish env (bare (needs_attention reason))
          (record s { needs_attention = true; attention_reason = some reason }) in
      rw loud (record { session_id = c.session_id; connection_id = c.connection_id })
]

finish-IsSame : (s : Session) → IsSame s (finish s).0
unfolding finish
finish-IsSame s = record { session_id = ground arith; connection_id = ground arith }

react-IsSame : (env : Env) (e : Event) (s : Session) → IsSame s (react env e s).0
unfolding react
react-IsSame env (result stop usage) s =
    IsSame-trans (enter_attention-IsSame env turn_complete (turn_finished (stop_of stop)) s)
      (finish-IsSame _)
react-IsSame env (error code message) s =
    elim (Bool-cases (code == agent_crashed || code == auth_required)) [
      | inl serious ↦ rw serious (enter_attention-IsSame env code (agent_error (or_none message)) s)
      | inr other ↦ rw other (IsSame-refl s)
    ]
react-IsSame env _ s = IsSame-refl s

pub on_event-IsSame : (env : Env) (f : Frame) (s : Session) → IsSame s (on_event env f s).0
unfolding on_event
on_event-IsSame env f s =
    IsSame-trans (IsSame-control (SameControl-publish env f s))
      (react-IsSame env f.event (publish env f s).0)
