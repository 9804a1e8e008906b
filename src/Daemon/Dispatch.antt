-- ===== src/Daemon/Dispatch.antt =====
-- `_dispatch` of blemees_agent/daemon.py, and runs of the daemon: any sequence of messages,
-- connections that come and go, events of agents, and rounds of the reaper.
pub mod Ownership
pub mod Refusals
pub mod Replies
use blemees_agent.Prelude.{some, ℕ, String, Bool, Option, List, [], ◌∷◌}
use blemees_agent.Errors.{Result}
use blemees_agent.EventLog.{Frame}
use blemees_agent.Protocol.Messages.{
  OpenMessage, PromptMessage, CancelMessage, CloseMessage, AttachMessage, DetachMessage,
  PermissionResponseMessage, PingMessage, ProfileActionMessage, ProfileMutateMessage,
  NotifyTestMessage, SessionInfoMessage,
}
use blemees_agent.Session.{Session, Env, Backend}
use blemees_agent.Daemon.{DaemonEffect, Daemon, Handled, Spawned}
use blemees_agent.Daemon.Open.{handle_open, begin_open, end_open}
use blemees_agent.Daemon.Info.{handle_session_info}
use blemees_agent.Prelude.Int.{ℤ}
use blemees_agent.Value.{Value}
use blemees_agent.Supervisor.Profiles.{Profile, Agent}
use blemees_agent.Daemon.Drive.{
  handle_prompt, handle_cancel, handle_close, handle_permission_response,
}
use blemees_agent.Daemon.Attach.{handle_attach, handle_detach}
use blemees_agent.Daemon.Profiles.{
  handle_profile_stop, handle_profile_create, handle_profile_update, handle_profile_delete,
  handle_notify_test,
}
use blemees_agent.Daemon.Views.{handle_ping}
use blemees_agent.Daemon.Steps.{backend_turns, accept, hang_up, agent_event, reap, settle}

-- A message that was parsed, with what the agent makes of it where it is asked. The types
-- session.list, status, profile.list, profile.start and hello are left out.
pub data Request : Type 0 where
  open_request : OpenMessage → (Option String → Result Spawned) → Request
  prompt_request : PromptMessage → (Option String → Result Spawned) → Result (Unit {0}) → Request
  cancel_request : CancelMessage → Bool → Request
  close_request : CloseMessage → Request
  ping_request : PingMessage → Request
  attach_request : AttachMessage → Request
  detach_request : DetachMessage → Request
  permission_request : PermissionResponseMessage → Request
  stop_request delete_request : ProfileActionMessage → Request
  create_request update_request : ProfileMutateMessage → Request
  notify_test_request : NotifyTestMessage → Request
  -- with the built-in `int`
  info_request : SessionInfoMessage → (Value → Option ℤ) → Request

-- `which` finds the commands that are installed; `now` is the clock.
module _ (which : String → Bool) where
  unfoldable pub handle : Env → ℕ → ℕ → Request → Daemon → Handled
  handle env c now (open_request msg answer) d = handle_open env c now msg answer d
  handle env c now (prompt_request msg answer sent) d = handle_prompt c msg answer sent d
  handle env c now (cancel_request msg killed) d = handle_cancel c msg killed d
  handle env c now (close_request msg) d = handle_close env c msg d
  handle env c now (ping_request msg) d = handle_ping c msg d
  handle env c now (attach_request msg) d = handle_attach env c msg d
  handle env c now (detach_request msg) d = handle_detach now c msg d
  handle env c now (permission_request msg) d = handle_permission_response c msg d
  handle env c now (stop_request msg) d = handle_profile_stop c msg d
  handle env c now (delete_request msg) d = handle_profile_delete c msg d
  handle env c now (create_request msg) d = handle_profile_create which c msg d
  handle env c now (update_request msg) d = handle_profile_update which c msg d
  handle env c now (notify_test_request msg) d = handle_notify_test now c msg d
  handle env c now (info_request msg to_int) d = handle_session_info to_int c msg d

  -- `id` and `session` are those of the message.
  unfoldable pub dispatch :
      Env → ℕ → ℕ → Option String → Option String → Request → Daemon → Daemon × List DaemonEffect
  unfolding handle settle
  dispatch env c now id session r d = settle c id session (handle env c now r d)

-- What can happen to the daemon.
pub data Happening : Type 0 where
  -- by the number of the connection
  accepted : ℕ → Happening
  hung_up : ℕ → ℕ → Happening
  -- the connection, the clock, the message's `id` and `session_id`
  asked : Env → ℕ → ℕ → Option String → Option String → Request → Happening
  spoke : Env → String → Frame → Happening
  turned : String → Option Backend → Happening
  reaped : ℕ → Happening
  -- An open whose spawn suspends: it goes up to the spawn, and on from there with what came of it.
  open_began : ℕ → ℕ → OpenMessage → Happening
  open_ended : Env → ℕ → ℕ → OpenMessage → Profile → Agent → Session → Result Spawned → Happening

module _ (which : String → Bool) where
  unfoldable pub happen : Happening → Daemon → Daemon
  unfolding dispatch settle
  happen (accepted c) d = accept c d
  happen (hung_up now c) d = (hang_up now c d).0
  happen (asked env c now id session r) d = (dispatch which env c now id session r d).0
  happen (spoke env id f) d = (agent_event env id f d).0
  happen (turned id b) d = backend_turns id b d
  happen (reaped now) d = (reap now d).0
  happen (open_began c now msg) d =
      (settle c msg.id (some msg.session_id) (begin_open c now msg d)).0
  happen (open_ended env c now msg profile agent old answered) d =
      (settle c msg.id (some msg.session_id)
        (end_open env c now msg profile agent old answered d)).0

  unfoldable pub run : List Happening → Daemon → Daemon
  unfolding happen
  run [] d = d
  run (h ∷ hs) d = run hs (happen h d)
