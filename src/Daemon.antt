-- ===== src/Daemon.antt =====
-- blemees_agent/daemon.py: the daemon's state, its connections, and what it sends. The children
-- hold the handlers of a connection's messages, and the other things that happen to it.
pub mod Open
pub mod Drive
pub mod Attach
pub mod Profiles
pub mod Views
pub mod Info
pub mod Steps
pub mod Ownership
pub mod Dispatch
pub mod Leaks
use blemees_agent.Prelude.{
  from_option, nat_eq, if◌then◌else◌, is_none, keep_if, find_first, any_of, Dict, lookup, insert, ℕ,
  String, Bool, false, not, ◌||◌, Option, none, some, List, [], ◌∷◌, map, ◌==◌,
}
use blemees_agent.Value.{Value}
use blemees_agent.Errors.{ErrorCode, Failure, Result, ok, err}
use blemees_agent.Notify.{NotifyService}
use blemees_agent.Protocol.Messages.{OpenMessage, Role}
use blemees_agent.Registry.{Registry}
use blemees_agent.Session.{Session, Backend, Effect, Env}
use blemees_agent.Session.Events.Attention.{apply_effects}
use blemees_agent.Supervisor.{Supervisor}
use blemees_agent.Table.{SessionTable, TableEffect}

-- The frames that the daemon makes itself. `error_frame` is told by its code.
pub data Reply : Type 0 where
  -- id, session, profile, agent, last_seq, view_only, native_session_id
  opened_reply : Option String → String → String → String → ℕ → Bool → Option String → Reply
  -- session, was_idle
  cancelled_reply : String → Bool → Reply
  closed_reply : Option String → String → Reply
  -- id, session, role, last_seq
  attached_reply : Option String → String → Role → ℕ → Reply
  -- id, session, was_attached
  detached_reply : Option String → String → Bool → Reply
  taken_notice : String → Reply
  pong : Option String → Option Value → Reply
  sessions_reply : Option String → Option String → List (Dict Value) → Reply
  info_reply : Option String → Dict Value → Reply
  profile_started : Option String → String → ℕ → Reply
  profile_stopped : Option String → String → ℕ → Reply
  profile_created profile_updated profile_deleted : Option String → String → Reply
  -- id, profile, webhook_configured
  notify_test_result : Option String → String → Bool → Reply
  -- code, id, session
  error_reply : ErrorCode → Option String → Option String → Reply

-- `Connection`: what it keeps of the sessions.
pub record Connection : Type 0 where
  pub id : ℕ
  pub owned : List String
  pub watched : List String

-- What the daemon does besides changing its state, in order: a reply on a connection, what a
-- session does, and what the table does to backends and files.
pub data DaemonEffect : Type 0 where
  reply : ℕ → Reply → DaemonEffect
  of_session : String → Effect → DaemonEffect
  of_table : TableEffect → DaemonEffect

pub record Daemon : Type 0 where
  pub table : SessionTable
  -- the field `open_msg` of each session
  pub open_msgs : Dict OpenMessage
  pub registry : Registry
  pub supervisor : Supervisor
  pub notify : NotifyService
  pub connections : List Connection
  pub ring_buffer_size : ℕ

-- A handler: the state, the effects, and the exception that it leaves to `_dispatch`.
abbrev pub Handled : Type 0
Handled = Daemon × List DaemonEffect × Result (Unit {0})

abbrev pub finished : Daemon → List DaemonEffect → Handled
finished d es = (d, es, ok tt)

abbrev pub raises : Daemon → List DaemonEffect → Failure → Handled
raises d es e = (d, es, err e)

-- `x in s`, `s.add(x)` and `s.discard(x)` of a set of texts
abbrev pub holds : String → List String → Bool
holds x xs = any_of (λ y. y == x) xs

abbrev pub add_text : String → List String → List String
add_text x xs = if holds x xs then xs else x ∷ xs

abbrev pub discard_text : String → List String → List String
discard_text x xs = keep_if (λ y. not (y == x)) xs

-- A change to the connection of a number.
abbrev pub at_connection : ℕ → (Connection → Connection) → List Connection → List Connection
at_connection c f [] = []
at_connection c f (k ∷ ks) = (if nat_eq k.id c then f k else k) ∷ at_connection c f ks

abbrev pub own : String → Connection → Connection
own id k = record k { owned = add_text id k.owned }

abbrev pub disown : String → Connection → Connection
disown id k = record k { owned = discard_text id k.owned }

abbrev pub watch : String → Connection → Connection
watch id k = record k { watched = add_text id k.watched }

abbrev pub unwatch : String → Connection → Connection
unwatch id k = record k { watched = discard_text id k.watched }

abbrev pub change : ℕ → (Connection → Connection) → Daemon → Daemon
change c f d = record d { connections = at_connection c f d.connections }

-- `_lookup_connection`
unfoldable pub lookup_connection : ℕ → List Connection → Option Connection
lookup_connection c ks = find_first (λ k. nat_eq k.id c) ks

-- `session_id in self._owned_sessions`
unfoldable pub owns : ℕ → String → Daemon → Bool
unfolding lookup_connection
owns c id d = elim (lookup_connection c d.connections) [ none ↦ false | some k ↦ holds id k.owned ]

-- `self._sessions.try_get`
abbrev pub try_get : String → Daemon → Option Session
try_get id d = lookup id d.table.sessions

-- The session object under an id is changed in its place.
abbrev pub put_session : String → Session → Daemon → Daemon
put_session id s d = record d { table = record d.table { sessions = insert id s d.table.sessions } }

-- What sessions tell the notify service reaches it.
abbrev pub told : Env → List Effect → Daemon → Daemon
told env es d = record d { notify = apply_effects env.now_ms es d.notify }

-- The supervisor has the registry of the daemon, one object in the source: what changes it changes
-- both fields.
abbrev pub set_registry : Registry → Daemon → Daemon
set_registry r d = record d { registry = r; supervisor = record d.supervisor { registry = some r } }

abbrev pub set_supervisor : Supervisor → Daemon → Daemon
set_supervisor s d = record d { supervisor = s; registry = from_option d.registry s.registry }

abbrev pub session_effects : String → List Effect → List DaemonEffect
session_effects id es = map (of_session id) es

abbrev pub table_effects : List TableEffect → List DaemonEffect
table_effects es = map of_table es

-- `self._sessions.remove`
abbrev pub set_table : SessionTable → Daemon → Daemon
set_table t d = record d { table = t }

-- Whether a session can be driven as it stands: `sess.backend is None or not …running` is false.
abbrev pub is_running : Option Backend → Bool
is_running none = false
is_running (some b) = b.running

-- What comes of `backend.spawn()`: what the handle then reports.
pub record Spawned : Type 0 where
  pub native_session_id : Option String
  pub view_only : Bool
  pub model : Option String
  pub running : Bool

-- The handle as the session's backend.
abbrev pub backend_of : Spawned → Backend
backend_of info = record { running = info.running; turn_active = false }

-- `prev.notify_session_taken`, where the session's owner is another connection that is there.
unfoldable pub take_from : Option ℕ → ℕ → String → Daemon → Daemon × List DaemonEffect
unfolding lookup_connection
take_from none c id d = (d, [])
take_from (some prev) c id d =
    if nat_eq prev c || is_none (lookup_connection prev d.connections)
    then (d, [])
    else (change prev (disown id) d, reply prev (taken_notice id) ∷ [])
