-- ===== src/Acp/Process.antt =====
-- `AcpAgentProcess` of blemees_agent/backends/acp.py: a process, the sessions in it, and the frames
-- that it hands to the daemon's sessions. What the agent and the system answer is an argument.
use blemees_agent.Prelude.{
  if◌then◌else◌, length, keep_if, Dict, lookup, insert, erase, values, ℕ, suc, String, Bool, true,
  false, ◌&&◌, ◌||◌, Option, none, some, List, [], ◌∷◌, ◌++◌,
}
use blemees_agent.Value.{Value}
use blemees_agent.Errors.{Failure, Result, ok, err, spawn_failed_error, auth_required_error}
use blemees_agent.EventLog.{Event, update, result, stderr}
use blemees_agent.Acp.{Raised, auth_code, other_code, other_exception, translate_request_error}

-- `turn_task`: whether it runs, or will next see the `CancelledError`, or is done.
pub data Task : Type 0 where
  no_task in_flight cancelling done : Task

abbrev pub is_open : Task → Bool
is_open in_flight = true
is_open cancelling = true
is_open _ = false

-- `_SessionState`. `target` is the daemon's session whose `on_event` it holds.
pub record SessionState : Type 0 where
  pub target : String
  pub turn_active : Bool
  pub task : Task
  pub cancelled : Bool
  pub notified_crash : Bool
  pub loading : Bool

abbrev pub new_state : String → SessionState
new_state target = record {
  target = target;
  turn_active = false;
  task = no_task;
  cancelled = false;
  notified_crash = false;
  loading = false;
}

-- A frame for one of the daemon's sessions.
abbrev pub Emit : Type 0
Emit = String × Event

pub record Process : Type 0 where
  -- how many times a process was started, which tells them apart
  pub generation : ℕ
  -- the current one has not exited
  pub running : Bool
  pub closing : Bool
  -- `_conn` is set
  pub connected : Bool
  pub load_session : Bool
  pub sessions : Dict SessionState
  -- states that are out of `sessions` while their task is open
  pub strays : List SessionState

abbrev pub new_process : Process
new_process = record {
  generation = 0;
  running = false;
  closing = false;
  connected = false;
  load_session = false;
  sessions = [];
  strays = [];
}

abbrev pub session_count : Process → ℕ
session_count p = length p.sessions

unfoldable pub is_turn_active : String → Process → Bool
is_turn_active id p = elim (lookup id p.sessions) [ none ↦ false | some st ↦ st.turn_active ]

-- What comes of a call: the process, the frames, and the value or the exception.
abbrev pub Call : Type 0 → Type 0
Call A = Process × List Emit × Result A

-- The tasks that are still open after a state left `sessions`.
abbrev pub open_states : List SessionState → List SessionState
open_states sts = keep_if (λ st. is_open st.task) sts

-- A task that is cancelled and awaited: it ends with a frame only where the user had cancelled
-- the turn.
unfoldable pub cancel_turn : SessionState → List Emit
cancel_turn st =
    if is_open st.task && st.cancelled then (st.target, result (some "cancelled") none) ∷ [] else []

abbrev pub cancel_turns : List SessionState → List Emit
cancel_turns [] = []
cancel_turns (st ∷ sts) = cancel_turn st ++ cancel_turns sts

-- `close`
unfoldable pub close : Process → Process × List Emit
close p = (
  record p { closing = true; sessions = []; connected = false; running = false },
  cancel_turns (values p.sessions),
)

-- What comes of starting the agent: the system refuses, `initialize` raises, or it answers
-- whether it supports `session/load`.
pub data Launch : Type 0 where
  no_binary : String → Launch
  init_raises : Raised → Launch
  initialized : Bool → Launch

-- A failure of `initialize` is a failed spawn, unless the agent asks for authentication.
unfoldable pub init_failure : Raised → Failure
init_failure (auth_code why) = auth_required_error why
init_failure (other_code why) = spawn_failed_error why
init_failure (other_exception why) = spawn_failed_error why

-- The start itself: the ids of a process that crashed are dropped first.
unfoldable pub launch : Launch → Process → Call (Unit {0})
unfolding close
launch (no_binary why) p = (p, [], err (spawn_failed_error why))
launch (init_raises r) p =
    let c = close (record p { generation = suc p.generation; running = true; connected = true }) in
    (c.0, c.1, err (init_failure r))
launch (initialized load) p = (
  record p { generation = suc p.generation; running = true; connected = true; load_session = load },
  [],
  ok tt,
)

abbrev pub dropped : Process → Process
dropped p = record p {
  closing = false;
  sessions = [];
  strays = p.strays ++ open_states (values p.sessions);
}

abbrev pub start_unless : Bool → Launch → Process → Call (Unit {0})
start_unless true l p = (p, [], ok tt)
start_unless false l p = launch l (dropped p)

unfoldable pub ensure_started : Launch → Process → Call (Unit {0})
unfolding launch
ensure_started l p = start_unless p.running l p

-- `sessions[id] = st`: the state that stood there is out of reach.
abbrev pub put_state : String → SessionState → Process → Process
put_state id st p = record p {
  sessions = insert id st p.sessions;
  strays =
      p.strays ++ elim (lookup id p.sessions) [ none ↦ [] | some old ↦ open_states (old ∷ []) ];
}

-- What the agent answers to `session/new`: the id of its session.
pub data Opened : Type 0 where
  opened : String → Opened
  open_raises : Raised → Opened

unfoldable pub open_new : String → Opened → Process → Process × Result String
open_new target (opened id) p = (put_state id (new_state target) p, ok id)
open_new target (open_raises r) p = (p, err (translate_request_error r))

-- `new_session`; `_apply_selection` after it never fails, and changes nothing here.
unfoldable pub new_session : Launch → String → Opened → Process → Call String
new_session l target answer p =
    let started = ensure_started l p in
    elim started.2 [
      | err e ↦ (started.0, started.1, err e)
      | ok _ ↦ let o = open_new target answer started.0 in (o.0, started.1, o.1)
    ]

-- A change to the state at an id, if there is one.
unfoldable pub update_state : String → (SessionState → SessionState) → Process → Process
update_state id f p = elim (lookup id p.sessions) [
  | none ↦ p
  | some st ↦ record p { sessions = insert id (f st) p.sessions }
]

-- While the agent loads, its updates are dropped.
abbrev pub begin_load : String → String → Process → Process
begin_load target id p = put_state id (record (new_state target) { loading = true }) p

-- What follows `session/load`: a refusal takes the state out again, any other exception leaves
-- it; `loading` is false in the end.
unfoldable pub end_load : String → Option Raised → Process → Process × Result String
end_load id none p = (update_state id (λ st. record st { loading = false }) p, ok id)
end_load id (some (other_exception why)) p = (
  update_state id (λ st. record st { loading = false }) p,
  err (translate_request_error (other_exception why)),
)
end_load id (some r) p =
    (record p { sessions = erase id p.sessions }, err (translate_request_error r))

-- `resume_session`
unfoldable pub resume_session : Launch → String → String → Option Raised → Process → Call String
resume_session l target id answer p =
    let started = ensure_started l p in
    elim started.2 [
      | err e ↦ (started.0, started.1, err e)
      | ok _ ↦ let o = end_load id answer (begin_load target id started.0) in (o.0, started.1, o.1)
    ]

-- `session_update`: dropped for a turn that was cancelled or has crashed, and while loading.
unfoldable pub session_update : String → Value → Process → List Emit
session_update id v p = elim (lookup id p.sessions) [
  | none ↦ []
  | some st ↦
      if st.cancelled || st.notified_crash || st.loading then [] else (st.target, update v) ∷ []
]

-- `_pump_stderr` on a line: every session of the process gets it.
abbrev pub stderr_line : String → List SessionState → List Emit
stderr_line line [] = []
stderr_line line (st ∷ sts) = (st.target, stderr line) ∷ stderr_line line sts
