-- ===== src/Acp/Turns/Machine.antt =====
-- The turns of a process against a machine of three phases (blemees_agent/backends/acp.py).
use blemees_agent.Prelude.{
  nat_eq, if◌then◌else◌, Bool-cases, Option-cases, Dict, lookup, insert, erase, lookup-insert,
  lookup-erase, Each, Each-lookup, ℕ, String, ◌≡◌, refl, sym, ap, ◌∙◌, inl, inr, Bool, true, false,
  not, ◌||◌, Option, none, some, List, [], ◌∷◌, ◌==◌, eq_iff,
}
use blemees_agent.Acp.{Raised, auth_code, other_code, other_exception}
use blemees_agent.Acp.Process.{
  Task, no_task, in_flight, cancelling, done, is_open, SessionState, new_state, Process, Launch,
  no_binary, init_raises, initialized, Opened, opened, open_raises, launch, ensure_started,
  start_unless, close, open_new, begin_load, end_load, update_state,
}
use blemees_agent.Acp.Turns.{
  Answer, prompt, answered, prompt_raises, raise_at, run_at, start_turn, prompt_at, cancel_at,
  exit_at, run_first, run_task, run_turn, turn_ends, cancel, interrupt_turn, end_session, exits,
  watch_exit, run_stray,
}

-- How a session of the agent stands.
pub data Phase : Type 0 where
  absent idle busy : Phase

-- What can happen to it.
pub data PhaseAct : Type 0 where
  nothing begins finishes opens drops : PhaseAct

abbrev pub phase_step : PhaseAct → Phase → Phase
phase_step nothing a = a
phase_step begins absent = absent
phase_step begins idle = busy
phase_step begins busy = busy
phase_step finishes absent = absent
phase_step finishes idle = idle
phase_step finishes busy = idle
phase_step opens a = idle
phase_step drops a = absent

-- What can happen in the process, with what the agent and the system answer.
pub data Action : Type 0 where
  prompts interrupts ends : String → Action
  turn_runs : String → Answer → Action
  starts : Launch → Action
  opens_new : String → Opened → Action
  begins_load : String → String → Action
  ends_load : String → Option Raised → Action
  process_exits closes : Action
  exit_seen : ℕ → Action
  stray_runs : Answer → Action

unfoldable pub act : Action → Process → Process
unfolding prompt cancel end_session run_turn ensure_started open_new end_load close watch_exit
    run_stray
act (prompts id) p = (prompt id p).0
act (interrupts id) p = (cancel id p).0
act (ends id) p = (end_session id p).0
act (turn_runs id answer) p = (run_turn id answer p).0
act (starts l) p = (ensure_started l p).0
act (opens_new target answer) p = (open_new target answer p).0
act (begins_load target id) p = begin_load target id p
act (ends_load id answer) p = (end_load id answer p).0
act process_exits p = exits p
act closes p = (close p).0
act (exit_seen generation) p = (watch_exit generation p).0
act (stray_runs answer) p = (run_stray answer p).0

abbrev pub at_id : String → String → PhaseAct → PhaseAct
at_id id j a = if j == id then a else nothing

-- What an action is to the session under `id`.
abbrev pub seen : String → Action → Process → PhaseAct
seen id (prompts j) p = at_id id j begins
seen id (interrupts j) p = nothing
seen id (ends j) p = at_id id j drops
seen id (turn_runs j answer) p = at_id id j finishes
seen id (starts l) p = if p.running then nothing else drops
seen id (opens_new target (opened j)) p = at_id id j opens
seen id (opens_new target (open_raises r)) p = nothing
seen id (begins_load target j) p = at_id id j opens
seen id (ends_load j none) p = nothing
seen id (ends_load j (some (other_exception why))) p = nothing
seen id (ends_load j (some (auth_code why))) p = at_id id j drops
seen id (ends_load j (some (other_code why))) p = at_id id j drops
seen id process_exits p = nothing
seen id closes p = drops
seen id (exit_seen generation) p =
    if p.closing || not (nat_eq generation p.generation) then nothing else drops
seen id (stray_runs answer) p = nothing

abbrev pub phase_of : Option SessionState → Phase
phase_of none = absent
phase_of (some st) = if st.turn_active then busy else idle

abbrev pub view : String → Process → Phase
view id p = phase_of (lookup id p.sessions)

-- A turn is active just while its task is open.
abbrev pub IsSound : SessionState → Type 0
IsSound st = st.turn_active ≡ is_open st.task

module _ (id j : String) (d : Dict SessionState) where
  -- The state at a key is changed in the way of an action, or there is none.
  changes :
      (a : PhaseAct) (st st' : SessionState)
      → lookup j d ≡ some st
      → phase_of (some st') ≡ phase_step a (phase_of (some st))
      → phase_of (lookup id (insert j st' d)) ≡ phase_step (at_id id j a) (phase_of (lookup id d))
  changes a st st' held e = rw lookup-insert (elim (Bool-cases (j == id)) [
    | inl same ↦ rw same (
        e
        ∙ ap (λ o. phase_step a (phase_of o))
            (sym held ∙ ap (λ k. lookup k d) ((eq_iff j id).0 same)))
    | inr other ↦ rw other refl
  ])

  missing :
      (a : PhaseAct)
      → lookup j d ≡ none
      → phase_step a absent ≡ absent
      → phase_of (lookup id d) ≡ phase_step (at_id id j a) (phase_of (lookup id d))
  missing a gone e = elim (Bool-cases (j == id)) [
    | inl same ↦
        let none_there : lookup id d ≡ none =
          sym (ap (λ k. lookup k d) ((eq_iff j id).0 same)) ∙ gone in
        rw (same, none_there) (sym e)
    | inr other ↦ rw other refl
  ]

  set_new :
      (st : SessionState)
      → st.turn_active ≡ false
      → phase_of (lookup id (insert j st d))
        ≡ phase_step (at_id id j opens) (phase_of (lookup id d))
  set_new st e = rw lookup-insert (elim (Bool-cases (j == id)) [
    | inl same ↦ rw same (ap (λ b. if b then busy else idle) e)
    | inr other ↦ rw other refl
  ])

  taken_out :
      phase_of (lookup id (erase j d)) ≡ phase_step (at_id id j drops) (phase_of (lookup id d))
  taken_out =
      rw lookup-erase
        (elim (Bool-cases (j == id)) [ inl same ↦ rw same refl | inr other ↦ rw other refl ])

raise_at-idle :
    (b : Bool) (r : Raised) (st : SessionState)
    → ((raise_at b r st).0.turn_active ≡ false) × IsSound (raise_at b r st).0
raise_at-idle true r st = (refl, refl)
raise_at-idle false r st = (refl, refl)

run_at-idle :
    (t : Task) (answer : Answer) (st : SessionState)
    → st.task ≡ t
    → IsSound st
    → ((run_at t answer st).0.turn_active ≡ false) × IsSound (run_at t answer st).0
unfolding run_at turn_ends
run_at-idle in_flight (answered stop usage) st e h = (refl, refl)
run_at-idle in_flight (prompt_raises r) st e h = raise_at-idle st.notified_crash r st
run_at-idle cancelling answer st e h = (refl, refl)
run_at-idle no_task answer st e h = (h ∙ ap is_open e, h)
run_at-idle done answer st e h = (h ∙ ap is_open e, h)

pub run_task-idle :
    (answer : Answer) (st : SessionState)
    → IsSound st
    → ((run_task answer st).0.turn_active ≡ false) × IsSound (run_task answer st).0
unfolding run_task
run_task-idle answer st h = run_at-idle st.task answer st refl h

module _ (id j : String) (d : Dict SessionState) where
  -- The state at a key is changed, and its phase is not.
  keeps :
      (st st' : SessionState)
      → lookup j d ≡ some st
      → st'.turn_active ≡ st.turn_active
      → phase_of (lookup id (insert j st' d)) ≡ phase_of (lookup id d)
  keeps st st' held e =
      changes id j d nothing st st' held (ap (λ b. if b then busy else idle) e)
      ∙ (elim (Bool-cases (j == id)) [ inl same ↦ rw same refl | inr other ↦ rw other refl ])

update_state-view :
    (id j : String) (f : SessionState → SessionState) (p : Process)
    → ((st : SessionState) → (f st).turn_active ≡ st.turn_active)
    → view id (update_state j f p) ≡ view id p
unfolding update_state
update_state-view id j f p same = elim (Option-cases (lookup j p.sessions)) [
  | inl gone ↦ rw (gone, update_state) refl
  | inr (st, held) ↦ rw (held, update_state) (keeps id j p.sessions st (f st) held (same st))
]

prompt_at-view :
    (id j : String) (b : Bool) (st : SessionState) (p : Process)
    → lookup j p.sessions ≡ some st
    → st.turn_active ≡ b
    → view id (prompt_at b j st p).0 ≡ phase_step (at_id id j begins) (view id p)
prompt_at-view id j true st p held e = elim (Bool-cases (j == id)) [
  | inl same ↦
      let there : lookup id p.sessions ≡ some st =
        sym (ap (λ k. lookup k p.sessions) ((eq_iff j id).0 same)) ∙ held in
      let busy_there : view id p ≡ busy =
        ap phase_of there ∙ ap (λ b. if b then busy else idle) e in
      rw same (busy_there ∙ ap (phase_step begins) (sym busy_there))
  | inr other ↦ rw other refl
]
prompt_at-view id j false st p held e =
    changes id j p.sessions begins st (start_turn st) held
      (ap (λ b. phase_step begins (if b then busy else idle)) (sym e))

prompt-view :
    (id j : String) (p : Process)
    → view id (prompt j p).0 ≡ phase_step (at_id id j begins) (view id p)
unfolding prompt
prompt-view id j p = elim (Option-cases (lookup j p.sessions)) [
  | inl gone ↦ rw (gone, prompt) (missing id j p.sessions begins gone refl)
  | inr (st, held) ↦ rw (held, prompt) (prompt_at-view id j st.turn_active st p held refl)
]

cancel_at-view :
    (id j : String) (b : Bool) (st : SessionState) (p : Process)
    → lookup j p.sessions ≡ some st
    → view id (cancel_at b j st p).0 ≡ view id p
cancel_at-view id j true st p held = keeps id j p.sessions st (interrupt_turn st) held refl
cancel_at-view id j false st p held = refl

cancel-view : (id j : String) (p : Process) → view id (cancel j p).0 ≡ view id p
unfolding cancel
cancel-view id j p = elim (Option-cases (lookup j p.sessions)) [
  | inl gone ↦ rw (gone, cancel) refl
  | inr (st, held) ↦ rw (held, cancel) (cancel_at-view id j st.turn_active st p held)
]

end_session-view :
    (id j : String) (p : Process)
    → view id (end_session j p).0 ≡ phase_step (at_id id j drops) (view id p)
unfolding end_session
end_session-view id j p = elim (Option-cases (lookup j p.sessions)) [
  | inl gone ↦ rw (gone, end_session) (missing id j p.sessions drops gone refl)
  | inr (st, held) ↦ rw (held, end_session) (taken_out id j p.sessions)
]

finishes_any : (b : Bool) → idle ≡ phase_step finishes (if b then busy else idle)
finishes_any true = refl
finishes_any false = refl

run_turn-view :
    (id j : String) (answer : Answer) (p : Process)
    → Each IsSound p.sessions
    → view id (run_turn j answer p).0 ≡ phase_step (at_id id j finishes) (view id p)
unfolding run_turn
run_turn-view id j answer p h = elim (Option-cases (lookup j p.sessions)) [
  | inl gone ↦ rw (gone, run_turn) (missing id j p.sessions finishes gone refl)
  | inr (st, held) ↦
      let (idle_then, _) = run_task-idle answer st (Each-lookup IsSound j st p.sessions h held) in
      rw (held, run_turn)
        (changes id j p.sessions finishes st (run_task answer st).0 held
          (ap (λ b. if b then busy else idle) idle_then ∙ finishes_any st.turn_active))
]

start-view :
    (id : String) (b : Bool) (l : Launch) (p : Process)
    → view id (start_unless b l p).0 ≡ phase_step (if b then nothing else drops) (view id p)
unfolding launch close lookup
start-view id true l p = refl
start-view id false (no_binary why) p = refl
start-view id false (init_raises r) p = refl
start-view id false (initialized load) p = refl

exit-view :
    (id : String) (b : Bool) (p : Process)
    → view id (exit_at b p).0 ≡ phase_step (if b then nothing else drops) (view id p)
unfolding lookup
exit-view id true p = refl
exit-view id false p = refl

stray-view :
    (id : String) (answer : Answer) (sts : List SessionState) (p : Process)
    → view id (run_first answer sts p).0 ≡ view id p
stray-view id answer [] p = refl
stray-view id answer (st ∷ sts) p = refl

-- The phases follow the machine at each action.
pub act-view :
    (id : String) (a : Action) (p : Process)
    → Each IsSound p.sessions
    → view id (act a p) ≡ phase_step (seen id a p) (view id p)
unfolding act end_load open_new close lookup
act-view id (prompts j) p h = prompt-view id j p
act-view id (interrupts j) p h = cancel-view id j p
act-view id (ends j) p h = end_session-view id j p
act-view id (turn_runs j answer) p h = run_turn-view id j answer p h
act-view id (starts l) p h = unfold ensure_started in start-view id p.running l p
act-view id (opens_new target (opened j)) p h = set_new id j p.sessions (new_state target) refl
act-view id (opens_new target (open_raises r)) p h = refl
act-view id (begins_load target j) p h = set_new id j p.sessions _ refl
act-view id (ends_load j none) p h = update_state-view id j _ p (λ st. refl)
act-view id (ends_load j (some (other_exception why))) p h = update_state-view id j _ p (λ st. refl)
act-view id (ends_load j (some (auth_code why))) p h = taken_out id j p.sessions
act-view id (ends_load j (some (other_code why))) p h = taken_out id j p.sessions
act-view id process_exits p h = refl
act-view id closes p h = refl
act-view id (exit_seen generation) p h = unfold watch_exit in exit-view id _ p
act-view id (stray_runs answer) p h = unfold run_stray in stray-view id answer p.strays p
