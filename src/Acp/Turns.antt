-- ===== src/Acp/Turns.antt =====
-- The turns of `AcpAgentProcess` in blemees_agent/backends/acp.py: a prompt starts a task, and the
-- agent's answer, the user's interrupt, a crash or the end of the session end it.
pub mod Machine
pub mod Sound
pub mod Once
use blemees_agent.Prelude.{
  nat_eq, if◌then◌else◌, Dict, lookup, insert, erase, values, ℕ, ◌+◌, String, Bool, true, false,
  not, ◌||◌, Option, none, some, List, [], ◌∷◌, ◌++◌, map,
}
use blemees_agent.Errors.{Result, ok, err, spawn_failed_error, session_busy_error}
use blemees_agent.Value.{Value}
use blemees_agent.EventLog.{result, error}
use blemees_agent.Notify.{agent_crashed, auth_required}
use blemees_agent.Acp.{Raised, auth_code, other_code, other_exception}
use blemees_agent.Acp.Process.{
  Task, no_task, in_flight, cancelling, done, SessionState, Process, Emit, open_states, cancel_turn,
}

abbrev pub start_turn : SessionState → SessionState
start_turn st = record st {
  turn_active = true;
  cancelled = false;
  notified_crash = false;
  task = in_flight;
}

-- A turn of the session starts, unless one is active.
abbrev pub prompt_at : Bool → String → SessionState → Process → Process × Result (Unit {0})
prompt_at true id st p = (p, err (session_busy_error "a turn is already in flight"))
prompt_at false id st p = (record p { sessions = insert id (start_turn st) p.sessions }, ok tt)

-- `prompt`
unfoldable pub prompt : String → Process → Process × Result (Unit {0})
prompt id p = elim (lookup id p.sessions) [
  | none ↦ (p, err (spawn_failed_error "ACP session not initialised"))
  | some st ↦ prompt_at st.turn_active id st p
]

-- What the agent answers to `session/prompt`.
pub data Answer : Type 0 where
  answered : Option String → Option (Dict Value) → Answer
  prompt_raises : Raised → Answer

abbrev pub crash_code : Raised → String
crash_code (auth_code why) = auth_required
crash_code _ = agent_crashed

abbrev pub reason_of : Raised → String
reason_of (auth_code why) = why
reason_of (other_code why) = why
reason_of (other_exception why) = why

abbrev pub over : SessionState → SessionState
over st = record st { turn_active = false; task = done }

-- An exception ends the turn with an error, unless a crash was announced before.
abbrev pub raise_at : Bool → Raised → SessionState → SessionState × List Emit
raise_at true r st = (over st, [])
raise_at false r st = (
  record (over st) { notified_crash = true },
  (st.target, error (crash_code r) (some (reason_of r))) ∷ [],
)

-- The end of `_run_turn` where `conn.prompt` came back or raised.
unfoldable pub turn_ends : Answer → SessionState → SessionState × List Emit
turn_ends (answered stop usage) st = (over st, (st.target, result stop usage) ∷ [])
turn_ends (prompt_raises r) st = raise_at st.notified_crash r st

-- The task runs on: a cancelled one sees the `CancelledError` and no answer.
unfoldable pub run_at : Task → Answer → SessionState → SessionState × List Emit
unfolding turn_ends cancel_turn
run_at in_flight answer st = turn_ends answer st
run_at cancelling answer st = (over st, cancel_turn st)
run_at no_task answer st = (st, [])
run_at done answer st = (st, [])

unfoldable pub run_task : Answer → SessionState → SessionState × List Emit
unfolding run_at
run_task answer st = run_at st.task answer st

-- The same for the task of a session.
unfoldable pub run_turn : String → Answer → Process → Process × List Emit
run_turn id answer p = elim (lookup id p.sessions) [
  | none ↦ (p, [])
  | some st ↦ let r = run_task answer st in (record p { sessions = insert id r.0 p.sessions }, r.1)
]

abbrev pub cancel_task : Task → Task
cancel_task in_flight = cancelling
cancel_task t = t

abbrev pub interrupt_turn : SessionState → SessionState
interrupt_turn st = record st { cancelled = true; task = cancel_task st.task }

abbrev pub cancel_at : Bool → String → SessionState → Process → Process × Bool
cancel_at true id st p = (record p { sessions = insert id (interrupt_turn st) p.sessions }, true)
cancel_at false id st p = (p, false)

-- `cancel`, which says whether a turn was in flight
unfoldable pub cancel : String → Process → Process × Bool
cancel id p = elim (lookup id p.sessions) [
  | none ↦ (p, false)
  | some st ↦ cancel_at st.turn_active id st p
]

-- `end_session`: the task is cancelled and awaited.
unfoldable pub end_session : String → Process → Process × List Emit
end_session id p = elim (lookup id p.sessions) [
  | none ↦ (p, [])
  | some st ↦ (record p { sessions = erase id p.sessions }, cancel_turn st)
]

abbrev pub crash_notice : SessionState → List Emit
crash_notice st =
    if st.notified_crash
    then []
    else (st.target, error agent_crashed (some "ACP agent process exited unexpectedly")) ∷ []

abbrev pub crash_notices : List SessionState → List Emit
crash_notices [] = []
crash_notices (st ∷ sts) = crash_notice st ++ crash_notices sts

abbrev pub crashed_state : SessionState → SessionState
crashed_state st = record st { notified_crash = true; task = cancel_task st.task }

-- The process exits.
abbrev pub exits : Process → Process
exits p = record p { running = false }

abbrev pub exit_at : Bool → Process → Process × List Emit
exit_at true p = (p, [])
exit_at false p = (
  record p {
    sessions = [];
    strays = p.strays ++ open_states (map crashed_state (values p.sessions));
  },
  crash_notices (values p.sessions),
)

-- `_watch_exit` of the process that was started as the `generation`th: silent after a `close` or
-- a respawn. The tasks of the sessions are cancelled, not awaited.
unfoldable pub watch_exit : ℕ → Process → Process × List Emit
watch_exit generation p = exit_at (p.closing || not (nat_eq generation p.generation)) p

abbrev pub run_first : Answer → List SessionState → Process → Process × List Emit
run_first answer [] p = (p, [])
run_first answer (st ∷ sts) p = (record p { strays = sts }, (run_task answer st).1)

-- The task of the first stray runs on.
unfoldable pub run_stray : Answer → Process → Process × List Emit
unfolding run_task
run_stray answer p = run_first answer p.strays p
