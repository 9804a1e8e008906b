-- ===== src/Acp/Turns/Sound.antt =====
-- What holds of the states of a process at any time (blemees_agent/backends/acp.py).
use blemees_agent.Prelude.{
  Option-cases, lookup, insert, Each, Each-insert, Each-erase, Each-lookup, String, ◌≡◌, refl, ap,
  ◌∙◌, inl, inr, Bool, true, false, none, some, List, [], ◌∷◌, arith,
}
use blemees_agent.Acp.{auth_code, other_code, other_exception}
use blemees_agent.Acp.Process.{
  SessionState, new_state, Process, new_process, Launch, no_binary, init_raises, initialized,
  opened, open_raises, launch, start_unless, ensure_started, close, open_new, end_load,
  update_state,
}
use blemees_agent.Acp.Turns.{
  Answer, prompt, prompt_at, start_turn, run_task, run_turn, cancel, cancel_at, interrupt_turn,
  end_session, exit_at, watch_exit, run_first, run_stray,
}
use blemees_agent.Acp.Turns.Machine.{
  Phase, absent, Action, prompts, interrupts, ends, turn_runs, starts, opens_new, begins_load,
  ends_load, process_exits, closes, exit_seen, stray_runs, act, seen, phase_step, view, IsSound,
  run_task-idle, act-view,
}

abbrev AreSound : Process → Type 0
AreSound p = Each IsSound p.sessions

set-IsSound :
    (j : String) (st : SessionState) (p : Process)
    → IsSound st
    → AreSound p
    → Each IsSound (insert j st p.sessions)
set-IsSound j st p h k = Each-insert IsSound j st p.sessions h k

update_state_sound :
    (j : String) (f : SessionState → SessionState) (p : Process)
    → ((st : SessionState) → IsSound st → IsSound (f st))
    → AreSound p
    → AreSound (update_state j f p)
unfolding update_state
update_state_sound j f p keeps h = elim (Option-cases (lookup j p.sessions)) [
  | inl gone ↦ rw (gone, update_state) h
  | inr (st, held) ↦
      rw (held, update_state)
        (set-IsSound j (f st) p (keeps st (Each-lookup IsSound j st p.sessions h held)) h)
]

prompt_at_sound :
    (j : String) (b : Bool) (st : SessionState) (p : Process)
    → AreSound p
    → AreSound (prompt_at b j st p).0
prompt_at_sound j true st p h = h
prompt_at_sound j false st p h = set-IsSound j (start_turn st) p refl h

prompt_sound : (j : String) (p : Process) → AreSound p → AreSound (prompt j p).0
unfolding prompt
prompt_sound j p h = elim (Option-cases (lookup j p.sessions)) [
  | inl gone ↦ rw (gone, prompt) h
  | inr (st, held) ↦ rw (held, prompt) (prompt_at_sound j st.turn_active st p h)
]

interrupt-IsSound : (st : SessionState) → IsSound st → IsSound (interrupt_turn st)
interrupt-IsSound st h = ground arith

cancel_at_sound :
    (j : String) (b : Bool) (st : SessionState) (p : Process)
    → AreSound p
    → IsSound st
    → AreSound (cancel_at b j st p).0
cancel_at_sound j true st p h k = set-IsSound j (interrupt_turn st) p (interrupt-IsSound st k) h
cancel_at_sound j false st p h k = h

cancel_sound : (j : String) (p : Process) → AreSound p → AreSound (cancel j p).0
unfolding cancel
cancel_sound j p h = elim (Option-cases (lookup j p.sessions)) [
  | inl gone ↦ rw (gone, cancel) h
  | inr (st, held) ↦
      rw (held, cancel)
        (cancel_at_sound j st.turn_active st p h (Each-lookup IsSound j st p.sessions h held))
]

end_session_sound : (j : String) (p : Process) → AreSound p → AreSound (end_session j p).0
unfolding end_session
end_session_sound j p h = elim (Option-cases (lookup j p.sessions)) [
  | inl gone ↦ rw (gone, end_session) h
  | inr (st, held) ↦ rw (held, end_session) (Each-erase IsSound j p.sessions h)
]

run_turn_sound :
    (j : String) (answer : Answer) (p : Process) → AreSound p → AreSound (run_turn j answer p).0
unfolding run_turn
run_turn_sound j answer p h = elim (Option-cases (lookup j p.sessions)) [
  | inl gone ↦ rw (gone, run_turn) h
  | inr (st, held) ↦
      let (_, k) = run_task-idle answer st (Each-lookup IsSound j st p.sessions h held) in
      rw (held, run_turn) (set-IsSound j (run_task answer st).0 p k h)
]

start_sound : (b : Bool) (l : Launch) (p : Process) → AreSound p → AreSound (start_unless b l p).0
unfolding launch close
start_sound true l p h = h
start_sound false (no_binary why) p h = tt
start_sound false (init_raises r) p h = tt
start_sound false (initialized load) p h = tt

exit_sound : (b : Bool) (p : Process) → AreSound p → AreSound (exit_at b p).0
exit_sound true p h = h
exit_sound false p h = tt

stray_sound :
    (answer : Answer) (sts : List SessionState) (p : Process)
    → AreSound p
    → AreSound (run_first answer sts p).0
stray_sound answer [] p h = h
stray_sound answer (st ∷ sts) p h = h

act_sound : (a : Action) (p : Process) → AreSound p → AreSound (act a p)
unfolding act open_new end_load close
act_sound (prompts j) p h = prompt_sound j p h
act_sound (interrupts j) p h = cancel_sound j p h
act_sound (ends j) p h = end_session_sound j p h
act_sound (turn_runs j answer) p h = run_turn_sound j answer p h
act_sound (starts l) p h = unfold ensure_started in start_sound p.running l p h
act_sound (opens_new target (opened j)) p h = set-IsSound j (new_state target) p refl h
act_sound (opens_new target (open_raises r)) p h = h
act_sound (begins_load target j) p h =
    set-IsSound j (record (new_state target) { loading = true }) p refl h
act_sound (ends_load j none) p h = update_state_sound j _ p (λ st k. k) h
act_sound (ends_load j (some (other_exception why))) p h = update_state_sound j _ p (λ st k. k) h
act_sound (ends_load j (some (auth_code why))) p h = Each-erase IsSound j p.sessions h
act_sound (ends_load j (some (other_code why))) p h = Each-erase IsSound j p.sessions h
act_sound process_exits p h = h
act_sound closes p h = tt
act_sound (exit_seen generation) p h = unfold watch_exit in exit_sound _ p h
act_sound (stray_runs answer) p h = unfold run_stray in stray_sound answer p.strays p h

-- The actions one after another, in the process and in the machine.
unfoldable pub run : List Action → Process → Process
unfolding act
run [] p = p
run (a ∷ as') p = run as' (act a p)

unfoldable pub phase_run : String → List Action → Process → Phase → Phase
unfolding act
phase_run id [] p phase = phase
phase_run id (a ∷ as') p phase = phase_run id as' (act a p) (phase_step (seen id a p) phase)

run_from-view :
    (id : String) (as' : List Action) (p : Process)
    → AreSound p
    → view id (run as' p) ≡ phase_run id as' p (view id p)
unfolding run phase_run
run_from-view id [] p h = refl
run_from-view id (a ∷ as') p h =
    run_from-view id as' (act a p) (act_sound a p h)
    ∙ ap (phase_run id as' (act a p)) (act-view id a p h)

-- Over any sequence of calls, answers of the agent, crashes and restarts, in any order, a session
-- of the agent goes through the phases of the machine: a prompt makes it busy only from idle,
-- and it is idle again only when its task ran to an end or it was opened anew; an interrupt
-- alone leaves it busy; a crash that is seen, a close and a restart drop it.
pub run-view :
    (id : String) (as' : List Action)
    → view id (run as' new_process) ≡ phase_run id as' new_process absent
unfolding lookup
run-view id as' = run_from-view id as' new_process tt
