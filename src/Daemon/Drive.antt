-- ===== src/Daemon/Drive.antt =====
-- The handlers of blemees_agent/daemon.py that drive a session: prompts, interrupts, permission
-- responses and the close, which only the owner may send.
use blemees_agent.Prelude.{
  if◌then◌else◌, is_some, or_else, from_option, lookup, ℕ, String, Bool, true, not, Option, none,
  some, List, [], ◌∷◌, ◌++◌,
}
use blemees_agent.Errors.{
  ErrorCode, Failure, Result, ok, err, code_of, view_only, protocol_error, session_unknown_error,
  session_busy_error, auth_required_error, spawn_failed_error,
}
use blemees_agent.EventLog.{closed_notice}
use blemees_agent.Protocol.Messages.{
  OpenMessage, PromptMessage, CancelMessage, CloseMessage, PermissionResponseMessage, Outcome,
}
use blemees_agent.Registry.{save}
use blemees_agent.Registry
use blemees_agent.Session.{Session, Backend, Env, Decision, selected, cancelled}
use blemees_agent.Session.Events.{or_none, bare, push_watchers}
use blemees_agent.Session.Permission.{resolve_permission}
use blemees_agent.Session.Title.{record_user_message}
use blemees_agent.Supervisor.{make_handle}
use blemees_agent.Table.{remove}
use blemees_agent.Daemon.{set_registry}
use blemees_agent.Daemon.{
  cancelled_reply, closed_reply, error_reply, DaemonEffect, reply, Daemon, Handled, finished,
  raises, change, disown, owns, try_get, put_session, session_effects, table_effects, set_table,
  Spawned, backend_of,
}

abbrev pub refuse_with : ℕ → String → ErrorCode → DaemonEffect
refuse_with c id code = reply c (error_reply code none (some id))

-- A turn is given to the backend: a failure is a reply, and a success gives the title.
unfoldable pub send_turn :
    ℕ → PromptMessage → Result (Unit {0}) → Session → Backend → Daemon → Handled
send_turn c msg (ok _) s b d =
    finished
      (put_session msg.session_id
        (record_user_message (("content", msg.content) ∷ [])
          (record s { backend = some (record b { turn_active = true }) }))
        d)
      []
send_turn c msg (err (session_busy_error why)) s b d =
    finished d (refuse_with c msg.session_id (code_of (session_busy_error why)) ∷ [])
send_turn c msg (err (spawn_failed_error why)) s b d =
    finished d (refuse_with c msg.session_id (code_of (spawn_failed_error why)) ∷ [])
send_turn c msg (err (protocol_error why)) s b d =
    finished d (refuse_with c msg.session_id (code_of (protocol_error why)) ∷ [])
send_turn c msg (err e) s b d = raises d [] e

-- The session after a respawn: one that cannot be loaded again is degraded to view-only.
abbrev pub respawned : Spawned → Session → Session
respawned info s =
    if info.view_only
    then record s { backend = some (backend_of info); view_only = true }
    else record s {
      backend = some (backend_of info);
      native_session_id = or_else (or_none info.native_session_id) s.native_session_id;
    }

-- A respawn that failed; here the session stays in the table.
unfoldable pub respawn_failed : ℕ → PromptMessage → Failure → Daemon → Handled
respawn_failed c msg (auth_required_error why) d =
    finished d (refuse_with c msg.session_id (code_of (auth_required_error why)) ∷ [])
respawn_failed c msg (spawn_failed_error why) d =
    finished d (refuse_with c msg.session_id (code_of (spawn_failed_error why)) ∷ [])
respawn_failed c msg e d = raises d [] e

-- The prompt goes to the agent that was spawned, unless it is view-only.
unfoldable pub go_on : ℕ → PromptMessage → Result (Unit {0}) → Spawned → Session → Daemon → Handled
unfolding send_turn
go_on c msg sent info s d =
    if info.view_only
    then finished d (refuse_with c msg.session_id view_only ∷ [])
    else send_turn c msg sent s (backend_of info) d

unfoldable pub respawn :
    ℕ
    → PromptMessage
    → OpenMessage
    → (Option String → Result Spawned)
    → Result (Unit {0})
    → Session
    → Daemon
    → Handled
unfolding respawn_failed go_on
respawn c msg open_msg answer sent s d =
    elim (make_handle open_msg.profile open_msg.agent d.supervisor) [
      | err e ↦ raises d [] e
      | ok supervisor ↦
          let d1 = record d { supervisor = supervisor } in
          elim (answer s.native_session_id) [
            | err e ↦ respawn_failed c msg e d1
            | ok info ↦
                let s1 = respawned info s in
                go_on c msg sent info s1 (put_session msg.session_id s1 d1)
          ]
    ]

-- A session that no message opened has nothing to be spawned from.
unfoldable pub respawn_opened :
    ℕ
    → PromptMessage
    → (Option String → Result Spawned)
    → Result (Unit {0})
    → Option OpenMessage
    → Session
    → Daemon
    → Handled
unfolding respawn
respawn_opened c msg answer sent none s d = raises d [] Failure.type_error
respawn_opened c msg answer sent (some open_msg) s d = respawn c msg open_msg answer sent s d

-- A backend that does not run is spawned again.
unfoldable pub drive :
    ℕ
    → PromptMessage
    → (Option String → Result Spawned)
    → Result (Unit {0})
    → Option Backend
    → Session
    → Daemon
    → Handled
unfolding respawn_opened send_turn
drive c msg answer sent none s d =
    respawn_opened c msg answer sent (lookup msg.session_id d.open_msgs) s d
drive c msg answer sent (some b) s d =
    if b.running
    then send_turn c msg sent s b d
    else respawn_opened c msg answer sent (lookup msg.session_id d.open_msgs) s d

-- The session is there: a view-only one is refused.
unfoldable pub prompt_session :
    ℕ
    → PromptMessage
    → (Option String → Result Spawned)
    → Result (Unit {0})
    → Session
    → Daemon
    → Handled
unfolding drive
prompt_session c msg answer sent s d =
    if s.view_only
    then finished d (refuse_with c msg.session_id view_only ∷ [])
    else drive c msg answer sent s.backend s d

-- `_handle_prompt`: to any but the owner the session is unknown.
unfoldable pub handle_prompt :
    ℕ → PromptMessage → (Option String → Result Spawned) → Result (Unit {0}) → Daemon → Handled
handle_prompt c msg answer sent d =
    if owns c msg.session_id d
    then elim (try_get msg.session_id d) [
      | none ↦ raises d [] (session_unknown_error msg.session_id)
      | some s ↦ prompt_session c msg answer sent s d
    ]
    else raises d [] (session_unknown_error msg.session_id)

-- `_handle_cancel`: to any but the owner the session is idle. `killed` is what `interrupt` says.
unfoldable pub handle_cancel : ℕ → CancelMessage → Bool → Daemon → Handled
handle_cancel c msg killed d =
    let idle = finished d (reply c (cancelled_reply msg.session_id true) ∷ []) in
    if owns c msg.session_id d
    then elim (try_get msg.session_id d) [
      | none ↦ idle
      | some s ↦
          if is_some s.backend
          then finished d (reply c (cancelled_reply msg.session_id (not killed)) ∷ [])
          else idle
    ]
    else idle

-- The decision that a response carries.
abbrev pub decision_of : PermissionResponseMessage → Decision
decision_of msg = elim msg.outcome [
  | Outcome.selected ↦ selected (from_option "" msg.option_id)
  | Outcome.cancelled ↦ cancelled msg.option_id
]

-- `_handle_permission_response`
unfoldable pub handle_permission_response : ℕ → PermissionResponseMessage → Daemon → Handled
handle_permission_response c msg d =
    if owns c msg.session_id d
    then elim (try_get msg.session_id d) [
      | none ↦ finished d []
      | some s ↦
          finished
            (put_session msg.session_id (resolve_permission msg.request_id (decision_of msg) s).0 d)
            []
    ]
    else finished d []

-- The watchers are told before the session is gone.
abbrev pub tell_watchers : Env → String → Daemon → Daemon × List DaemonEffect
tell_watchers env id d = elim (try_get id d) [
  | none ↦ (d, [])
  | some s ↦
      let o =
        push_watchers env (record (bare (closed_notice "owner_closed")) { session_id = some id })
          s in
      (put_session id o.0 d, session_effects id o.1)
]

-- The end of `_handle_close`: with `delete` the registry forgets the session too.
abbrev pub forget_record : Bool → String → Daemon → Daemon
forget_record delete id d =
    if delete then set_registry (save (Registry.remove id d.registry).1) d else d

-- `_handle_close`: to any but the owner a reply, and no more.
unfoldable pub handle_close : Env → ℕ → CloseMessage → Daemon → Handled
handle_close env c msg d =
    let ack = reply c (closed_reply msg.id msg.session_id) in
    if owns c msg.session_id d
    then (let told = tell_watchers env msg.session_id (change c (disown msg.session_id) d) in
        let r = remove msg.session_id msg.delete told.0.table in
        finished (forget_record msg.delete msg.session_id (set_table r.0 told.0))
          (told.1 ++ table_effects r.1 ++ ack ∷ []))
    else finished d (ack ∷ [])
