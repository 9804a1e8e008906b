-- ===== src/Acp/Handle.antt =====
-- `AcpSessionHandle` of blemees_agent/backends/acp.py: a session's view of the process that it
-- shares with others.
pub mod Stale
use blemees_agent.Prelude.{
  if◌then◌else◌, is_some, Dict, ◌+◌, String, Bool, true, false, not, ◌&&◌, Option, none, some, List,
  [], ◌++◌, ◌==◌,
}
use blemees_agent.Value.{Value}
use blemees_agent.Errors.{Result, ok, err, spawn_failed_error}
use blemees_agent.Acp.{Raised, to_content_blocks}
use blemees_agent.Acp.Process.{
  Process, Emit, Launch, Opened, is_turn_active, ensure_started, new_session, resume_session,
}
use blemees_agent.Acp.Turns.{prompt, cancel, end_session}

pub record Handle : Type 0 where
  -- the daemon's session whose `on_event` it holds
  pub target : String
  pub resume_native_id : Option String
  pub native_session_id : Option String
  pub load_session : Bool
  pub view_only : Bool

abbrev pub new_handle : String → Option String → Handle
new_handle target resume_native_id = record {
  target = target;
  resume_native_id = resume_native_id;
  native_session_id = none;
  load_session = false;
  view_only = false;
}

-- The properties `running` and `turn_active`.
unfoldable pub running : Handle → Process → Bool
running h p = p.running && is_some h.native_session_id

-- An id that is empty is no id here.
unfoldable pub active_as : Option String → Process → Bool
active_as none p = false
active_as (some id) p = not (id == "") && is_turn_active id p

unfoldable pub turn_active : Handle → Process → Bool
unfolding active_as
turn_active h p = active_as h.native_session_id p

-- What the agent answers while a session is spawned.
pub record Answers : Type 0 where
  pub launch : Launch
  pub open_new : Opened
  pub load_old : Option Raised

-- `spawn` of a session that is to be resumed under the agent's id
unfoldable pub spawn_resumed :
    Answers → String → Handle → Process → Handle × Process × List Emit × Result (Unit {0})
spawn_resumed a id h p =
    let started = ensure_started a.launch p in
    elim started.2 [
      | err e ↦ (h, started.0, started.1, err e)
      | ok _ ↦
          let h1 = record h { load_session = started.0.load_session } in
          if started.0.load_session
          then (let r = resume_session a.launch h.target id a.load_old started.0 in
              elim r.2 [
                | err e ↦ (h1, r.0, started.1 ++ r.1, err e)
                | ok native ↦
                    (record h1 { native_session_id = some native }, r.0, started.1 ++ r.1, ok tt)
              ])
          else (
            record h1 { view_only = true; native_session_id = none },
            started.0,
            started.1,
            ok tt,
          )
    ]

-- `spawn`
unfoldable pub spawn : Answers → Handle → Process → Handle × Process × List Emit × Result (Unit {0})
spawn a h p = elim h.resume_native_id [
  | some id ↦ spawn_resumed a id h p
  | none ↦
      let r = new_session a.launch h.target a.open_new p in
      elim r.2 [
        | err e ↦ (h, r.0, r.1, err e)
        | ok native ↦ (
          record h { native_session_id = some native; load_session = r.0.load_session },
          r.0,
          r.1,
          ok tt,
        )
      ]
]

-- `send_user_turn`, by the handle's own id
unfoldable pub send_as : Option String → Dict Value → Process → Process × Result (Unit {0})
send_as none message p = (p, err (spawn_failed_error "ACP session not initialised"))
send_as (some id) message p = elim (to_content_blocks message) [
  | err e ↦ (p, err e)
  | ok blocks ↦ prompt id p
]

unfoldable pub send_user_turn : Dict Value → Handle → Process → Process × Result (Unit {0})
unfolding send_as
send_user_turn message h p = send_as h.native_session_id message p

unfoldable pub interrupt_as : Option String → Process → Process × Bool
interrupt_as none p = (p, false)
interrupt_as (some id) p = cancel id p

-- `interrupt`
unfoldable pub interrupt : Handle → Process → Process × Bool
unfolding interrupt_as
interrupt h p = interrupt_as h.native_session_id p

unfoldable pub close_as : Option String → Process → Process × List Emit
close_as none p = (p, [])
close_as (some id) p = end_session id p

-- `close`, without the supervisor's callback: the handle itself stays as it is.
unfoldable pub close_handle : Handle → Process → Process × List Emit
unfolding close_as
close_handle h p = close_as h.native_session_id p
