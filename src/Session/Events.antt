-- ===== src/Session/Events.antt =====
-- Event dispatch and the attention state machine of blemees_agent/session.py.
pub mod Control
pub mod Sequence
pub mod Attention
pub mod Finish
use blemees_agent.Prelude.{
  if◌then◌else◌, is_some, from_option, keep_if, ℕ, ◌+◌, String, Bool, true, false, not, ◌&&◌, ◌||◌,
  Option, none, some, List, [], ◌∷◌, ◌++◌, ◌==◌,
}
use blemees_agent.EventLog.{
  Frame, Event, update, result, error, stderr, needs_attention, attention_cleared,
  request_permission, replay_gap, closed_notice, other,
}
use blemees_agent.EventLog.Ring.{append}
use blemees_agent.Notify.{
  Detail, turn_finished, agent_error, auth_required, agent_crashed, turn_complete, known_triggers,
  member,
}
use blemees_agent.Session.{
  Session, Effect, send, soft_kill, notify_fire, notify_clear, Env, Out, ◌▸◌,
}
use blemees_agent.Session.Usage.{update_usage}

-- A frame as a backend makes it, with neither `session_id` nor `seq`.
abbrev pub bare : Event → Frame
bare e = record { session_id = none; seq = none; event = e }

-- `frame.setdefault("session_id", …)`, then the next `seq`.
unfoldable pub stamp : Session → Frame → Frame
stamp s f = record f {
  session_id = some (from_option s.session_id f.session_id);
  seq = some (s.seq + 1);
}

-- The log keeps the frame unless the disk refuses it.
abbrev pub write_log : Bool → Frame → Option (List Frame) → Option (List Frame)
write_log took f none = none
write_log took f (some fs) = some (if took then fs ++ f ∷ [] else fs)

-- Stamp, ring, durable log, usage.
unfoldable pub record_frame : Env → Frame → Session → Session
unfolding update_usage append
record_frame env f s =
    let s1 = record s {
      seq = s.seq + 1;
      ring = append s.ring f;
      log = write_log (env.disk_ok f) f s.log;
    } in
    update_usage env.now_ms f.event s1

-- The attached writer: one that raises is unhooked.
unfoldable pub push_owner : Env → Frame → Session → Out
push_owner env f s = elim s.writer [
  | none ↦ (s, [])
  | some c ↦ if env.accepts c f then (s, send c f ∷ []) else (record s { writer = none }, [])
]

-- The sends to those watchers whose writers do not raise.
unfoldable pub fan_out : Env → Frame → List ℕ → List Effect
fan_out env f [] = []
fan_out env f (c ∷ cs) =
    let rest = fan_out env f cs in if env.accepts c f then send c f ∷ rest else rest

-- The watchers: those that raise are dropped. `broadcast_to_watchers` is no more than this.
unfoldable pub push_watchers : Env → Frame → Session → Out
unfolding fan_out
push_watchers env f s =
    (record s { watchers = keep_if (λ c. env.accepts c f) s.watchers }, fan_out env f s.watchers)

-- `on_event` up to the delivery of the frame, which is all of it for a frame that is neither a
-- `session.result` nor a `session.error`.
unfoldable pub publish : Env → Frame → Session → Out
unfolding stamp record_frame push_owner push_watchers
publish env f s =
    let g = stamp s f in (record_frame env g s, []) ▸ push_owner env g ▸ push_watchers env g

abbrev pub fire_effect : Session → String → Detail → List Effect
fire_effect s reason detail =
    if s.has_notify
    then notify_fire reason (from_option "default" s.profile_name) s.session_id detail ∷ []
    else []

abbrev pub reason_is : Option String → String → Bool
reason_is none reason = false
reason_is (some r) reason = r == reason

-- The three early returns of `enter_attention`.
unfoldable pub stays_quiet : Session → String → Bool
stays_quiet s reason =
    is_some s.connection_id
    || (member reason known_triggers && not (member reason s.attention_triggers))
    || (s.needs_attention && reason_is s.attention_reason reason)

unfoldable pub enter_attention : Env → String → Detail → Session → Out
enter_attention env reason detail s =
    if stays_quiet s reason
    then (s, [])
    else (record s { needs_attention = true; attention_reason = some reason }, [])
      ▸ publish env (bare (needs_attention reason))
      ▸ λ s'. (s', fire_effect s' reason detail)

abbrev pub clear_effect : Session → List Effect
clear_effect s = if s.has_notify then notify_clear s.session_id ∷ [] else []

unfoldable pub clear_attention : Env → Session → Out
clear_attention env s =
    if s.needs_attention
    then (record s { needs_attention = false; attention_reason = none }, clear_effect s)
      ▸ publish env (bare attention_cleared)
    else (s, [])

-- `if self._finishing and …`: the task closes the backend, if there is one.
unfoldable pub finish : Session → Out
finish s =
    if s.finishing
    then (record s { finishing = false }, if is_some s.backend then soft_kill ∷ [] else [])
    else (s, [])

-- `frame.get("stop_reason") or "end_turn"`
abbrev pub stop_of : Option String → String
stop_of none = "end_turn"
stop_of (some s) = if s == "" then "end_turn" else s

-- `frame.get("message") or …`
abbrev pub or_none : Option String → Option String
or_none none = none
or_none (some m) = if m == "" then none else some m

-- What follows the delivery, by the frame's type.
unfoldable pub react : Env → Event → Session → Out
react env (result stop usage) s =
    enter_attention env turn_complete (turn_finished (stop_of stop)) s ▸ finish
react env (error code message) s =
    if code == agent_crashed || code == auth_required
    then enter_attention env code (agent_error (or_none message)) s
    else (s, [])
react env _ s = (s, [])

unfoldable pub on_event : Env → Frame → Session → Out
on_event env f s = publish env f s ▸ react env f.event
