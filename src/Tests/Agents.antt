-- ===== src/Tests/Agents.antt =====
-- An agent's process with one session (blemees_agent/backends/acp.py).
use blemees_agent.Prelude.{Dict, lookup, ◌≡◌, refl, inl, true, false, none, some, List, [], ◌∷◌}
use blemees_agent.Value.{Value, text}
use blemees_agent.Errors.{err, spawn_failed_error}
use blemees_agent.EventLog.{Event}
use blemees_agent.Acp.{other_code, TextBlock, to_content_blocks}
use blemees_agent.Protocol.{get}
use blemees_agent.Acp.Process.{
  SessionState, new_state, Process, new_process, initialized, opened, session_update,
}
use blemees_agent.Acp.Turns.{
  start_turn, Answer, answered, prompt_raises, run_task, run_turn, cancel,
}
use blemees_agent.Acp.Turns.Machine.{
  Action, prompts, interrupts, turn_runs, starts, opens_new, process_exits, exit_seen, stray_runs,
  view, absent,
}
use blemees_agent.Acp.Turns.Sound.{run, phase_run, run-view}
use blemees_agent.Acp.Turns.Once.{is_terminal, run_task-once, cancel-quiet}
use blemees_agent.Acp.Handle.{
  Handle, new_handle, running, turn_active, send_user_turn, close_handle,
}
use blemees_agent.Acp.Handle.Stale.{close_handle-stale, watch_exit-stale, crashed, restarted}

abbrev ended : Answer
ended = answered (some "end_turn") none

-- A turn that is interrupted, a crash in the middle of the next one, and a restart.
abbrev story : List Action
story =
    starts (initialized true)
    ∷ opens_new "s-1" (opened "a")
    ∷ prompts "a"
    ∷ interrupts "a"
    ∷ turn_runs "a" ended
    ∷ prompts "a"
    ∷ process_exits
    ∷ exit_seen 1
    ∷ stray_runs ended
    ∷ starts (initialized true)
    ∷ []

run-view_example : view "a" (run story new_process) ≡ phase_run "a" story new_process absent
run-view_example = run-view "a" story

abbrev busy : SessionState
busy = start_turn (new_state "s-1")

abbrev refused : Answer
refused = prompt_raises (other_code "limit")

run_task-once_example :
    ((e : Event) × ((run_task refused busy).1 ≡ ("s-1", e) ∷ []) × (is_terminal e ≡ true))
    × ((run_task refused busy).0.turn_active ≡ false)
    × (run_task ended (run_task refused busy).0 ≡ ((run_task refused busy).0, []))
run_task-once_example =
    run_task-once refused ended busy (record { active = refl; uncrashed = refl; task = inl refl })

abbrev working : Process
working = record new_process {
  generation = 1;
  running = true;
  connected = true;
  sessions = ("a", busy) ∷ [];
}

cancel-quiet_example :
    (session_update "a" (text "late") (cancel "a" working).0 ≡ [])
    × (session_update "a" (text "later") (run_turn "a" ended (cancel "a" working).0).0 ≡ [])
unfolding cancel lookup
cancel-quiet_example = cancel-quiet "a" (text "late") (text "later") ended working refl

abbrev handle_a : Handle
handle_a = record (new_handle "s-1" none) { native_session_id = some "a" }

abbrev hello : Dict Value
hello = ("content", text "hello") ∷ []

abbrev hello_blocks : List TextBlock
hello_blocks = record { content = text "hello" } ∷ []

close_handle-stale_example :
    (running handle_a (close_handle handle_a working).0 ≡ true)
    × (turn_active handle_a (close_handle handle_a working).0 ≡ false)
    × ((send_user_turn hello handle_a (close_handle handle_a working).0).1
        ≡ err (spawn_failed_error "ACP session not initialised"))
unfolding to_content_blocks lookup get
close_handle-stale_example =
    close_handle-stale hello hello_blocks "a" handle_a working refl refl refl

watch_exit-stale_example :
    (running handle_a (crashed working) ≡ false)
    × (running handle_a (restarted true working) ≡ true)
    × ((send_user_turn hello handle_a (restarted true working)).1
        ≡ err (spawn_failed_error "ACP session not initialised"))
unfolding to_content_blocks lookup get
watch_exit-stale_example = watch_exit-stale hello hello_blocks "a" handle_a working true refl refl
