-- ===== src/Daemon/Steps.antt =====
-- What else happens to the daemon of blemees_agent/daemon.py: a client comes and goes, an agent
-- sends an event, the reaper runs, and `_dispatch` answers the exception of a handler.
use blemees_agent.Prelude.{
  List, Option, String, [], is_some, if◌then◌else◌, keep_if, nat_eq, none, not, some, ℕ, ◌++◌, ◌∷◌,
}
use blemees_agent.Errors.{
  invalid_message, internal, Failure, protocol_error, unsafe_flag_error, unknown_backend_error,
  type_error, request_error, ok, err, code_of,
}
use blemees_agent.EventLog.{Frame}
use blemees_agent.Session.{Backend, Env}
use blemees_agent.Session.Events.{on_event}
use blemees_agent.Table.{detach_all_for_connection, remove_all_watchers_for_connection, reap_idle}
use blemees_agent.Daemon.{
  Reply, error_reply, DaemonEffect, reply, Daemon, Handled, try_get, put_session, session_effects,
  table_effects, set_table, told,
}

-- `_on_client`: a connection starts with no sessions.
unfoldable pub accept : ℕ → Daemon → Daemon
accept c d = record d { connections = record { id = c; owned = []; watched = [] } ∷ d.connections }

-- The end of `serve`, and the `finally` of `_on_client`.
unfoldable pub hang_up : ℕ → ℕ → Daemon → Daemon × List DaemonEffect
hang_up now c d =
    let gone = detach_all_for_connection now c d.table in
    let calm = remove_all_watchers_for_connection c gone.0 in
    (
      record (set_table calm.0 d) {
        connections = keep_if (λ k. not (nat_eq k.id c)) d.connections;
      },
      table_effects gone.1,
    )

-- An event of the agent reaches the session's `on_event`.
unfoldable pub agent_event : Env → String → Frame → Daemon → Daemon × List DaemonEffect
agent_event env id f d = elim (try_get id d) [
  | none ↦ (d, [])
  | some s ↦
      let o = on_event env f s in (told env o.1 (put_session id o.0 d), session_effects id o.1)
]

-- The backend of a session that has one changes by itself: a turn is over, the agent dies, or the
-- task of a soft kill has closed it.
unfoldable pub backend_turns : String → Option Backend → Daemon → Daemon
backend_turns id b d = elim (try_get id d) [
  | none ↦ d
  | some s ↦ if is_some s.backend then put_session id (record s { backend = b }) d else d
]

-- A round of `make_reaper`.
unfoldable pub reap : ℕ → Daemon → Daemon × List DaemonEffect
reap now d = let r = reap_idle now d.table in (set_table r.0 d, table_effects r.1)

-- The `except` clauses of `_dispatch`: the error frame of an exception, by the `id` and the
-- `session_id` of the message.
unfoldable pub error_frame : Option String → Option String → Failure → Reply
error_frame id session (unsafe_flag_error why) =
    error_reply (code_of (unsafe_flag_error why)) id none
error_frame id session (unknown_backend_error why) =
    error_reply (code_of (unknown_backend_error why)) id none
error_frame id session (protocol_error why) = error_reply invalid_message id none
error_frame id session type_error = error_reply internal none none
error_frame id session (request_error why) = error_reply internal none none
error_frame id session e = error_reply (code_of e) id session

-- `_dispatch`, once a handler has run.
unfoldable pub settle : ℕ → Option String → Option String → Handled → Daemon × List DaemonEffect
unfolding error_frame
settle c id session (d, es, ok _) = (d, es)
settle c id session (d, es, err e) = (d, es ++ reply c (error_frame id session e) ∷ [])
