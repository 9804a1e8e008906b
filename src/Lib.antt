-- ===== src/Lib.antt =====
-- blemees-agent (blemees_agent/): a daemon that runs coding agents for clients on a socket.
--
-- A client's line is parsed to a control message. The daemon opens sessions in a table, each
-- with a backend made by the supervisor from the profile that was asked for. What the backend
-- emits passes through its session, which numbers it, keeps it in a ring and a log, and pushes
-- it to the owner and the watchers. When an owner detaches, the session lives on until the
-- reaper takes it, and whoever attaches to it gets what it missed. A session without an owner
-- that needs one is flagged, and the notify service is told.
--
-- Which file models what:
--   Value          JSON values as json.loads builds them, and the isinstance tests on them
--   Errors         blemees_agent/errors.py; `Result` is a call that may raise
--   EventLog       blemees_agent/event_log.py and the shape of a frame: EventLog/Ring is
--                  RingBuffer, EventLog/Durable is DurableEventLog
--   Protocol       blemees_agent/protocol.py: framing and the tests that parsers share here, the
--                  message classes in Protocol/Messages, the parse_* functions in Protocol/Parse
--   Notify         blemees_agent/notify.py: the triggers and NotifyService
--   Session        blemees_agent/session.py, class Session: its state here, on_event and the
--                  attention methods in Session/Events, attach, detach_writer and the watchers in
--                  Session/Attach, the permission methods in Session/Permission,
--                  _update_usage_from_frame in Session/Usage, record_user_message in Session/Title,
--                  enable_durable_log and the usage sidecar in Session/Restore, live_summary
--                  and usage_snapshot in Session/Summary
--   Table          blemees_agent/session.py, class SessionTable
--   Registry       blemees_agent/registry.py
--   Supervisor     blemees_agent/supervisor.py: the profiles' specs in Supervisor/Profiles, the
--                  table of processes here, the operations on profiles in Supervisor/Crud
--   Acp            blemees_agent/backends/acp.py: what an agent is told here, AcpAgentProcess in
--                  Acp/Process, its turns and its crash in Acp/Turns, AcpSessionHandle in
--                  Acp/Handle
--   Daemon         blemees_agent/daemon.py: the state of Daemon and Connection here, the handlers
--                  in Daemon/Open (_handle_open), Daemon/Drive (prompts, interrupts, permission
--                  responses, the close), Daemon/Attach, Daemon/Profiles, Daemon/Views and
--                  Daemon/Info (_handle_session_info), what else happens in Daemon/Steps,
--                  _dispatch and runs of the daemon in Daemon/Dispatch
--   Config         blemees_agent/config.py: load
--   Tests          runs at concrete inputs
--
-- How the state corresponds: a method of a class is a function on the record of its fields that
-- gives the new record and, where it does more, the list of its effects in order (`Effect`,
-- `TableEffect`). A method that raises is a `Result`. A dict is its list of items in order. A
-- coroutine runs to its end in one step, but for `decide_permission`, which stops at the future
-- that it awaits: `ask` is the part before and `wake` the part after, and for `_handle_open`,
-- whose spawn may suspend: `begin_open` and `end_open` are its parts, and `handle_open` is both
-- at once. An id that is given to a new session while an open of it is suspended is taken as the
-- same session. A prompt that spawns its backend again is one step, and so is an await on a
-- writer or on a lock. What changes the registry changes it for the daemon and its supervisor,
-- and what a session tells the notify service reaches the daemon's. A writer is the number of
-- its connection. A turn of an agent is a task of its own: it is started by `prompt`, and
-- `run_turn` is the step in which it ends; a task that was started has run up to the agent
-- before anything else happens. A task whose state left the process's sessions is kept as a
-- stray. The sessions of the daemon see their backend as the two flags `running` and
-- `turn_active`, which may change at any time.
--
-- What stands outside: json and UTF-8 decoding (`Decoder`, `Codec`), the writers that raise, the
-- disk that fails and the clock (`Env`), the search for a binary (`which`), the built-in `int`
-- (`to_int`). What an agent answers is an argument (`Launch`, `Opened`, `Answer`, `Raised`), and
-- so is what comes of a spawn in the daemon (`Spawned`). Times are natural numbers of one unit.
-- The registry's file is the JSON value in it. Recursion is on lists throughout, so that no fuel
-- is needed.
--
-- Not modelled: the handshake, the read loop, the writer with its watchdog, the shutdown, and
-- session.list, status, profile.list and profile.start of blemees_agent/daemon.py; the durable
-- log of sessions that the daemon opens (`enable_durable_log` stands alone, for a disk that
-- opens the log); the selection of a model and a mode of blemees_agent/backends/acp.py, which
-- never fails; the webhook's HTTP request, the client, the command line, and everything that is
-- logged.
pub mod Prelude
pub mod Value
pub mod Errors
pub mod EventLog
pub mod Protocol
pub mod Notify
pub mod Session
pub mod Table
pub mod Registry
pub mod Supervisor
pub mod Acp
pub mod Daemon
pub mod Config
pub mod Tests
