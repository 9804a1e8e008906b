-- ===== src/Daemon/Ownership/Drive.antt =====
-- The ownership of sessions across the handlers that drive a session (blemees_agent/daemon.py).
use blemees_agent.Prelude.{
  if◌then◌else◌, Bool-cases, Option-cases, lookup, lookup-insert, ℕ, String, ◌≡◌, refl, ap, ◌∙◌,
  inl, inr, Bool, true, false, Option, none, some, arith, ◌==◌, eq_refl,
}
use blemees_agent.Errors.{
  Failure, Result, ok, err, Result-cases, spawn_failed_error, auth_required_error,
  session_busy_error, protocol_error,
}
use blemees_agent.Protocol.Messages.{
  OpenMessage, PromptMessage, CancelMessage, CloseMessage, PermissionResponseMessage,
}
use blemees_agent.Session.{Session, Backend, Env}
use blemees_agent.Supervisor.{make_handle}
use blemees_agent.Table.{remove}
use blemees_agent.Table.Bounds.{remove-IsValid}
use blemees_agent.Table.Reaper.{lookup-remove}
use blemees_agent.Daemon.{
  Handled, Daemon, Spawned, owns, try_get, put_session, change, disown, backend_of, set_table,
}
use blemees_agent.Daemon.Drive.{
  send_turn, respawned, respawn_failed, respawn, respawn_opened, go_on, drive, prompt_session,
  handle_prompt, handle_cancel, handle_permission_response, tell_watchers, forget_record,
  handle_close,
}
use blemees_agent.Daemon.Ownership.{owned_of-owns, owner_of, owner_in, IsLinked, owned_in-disown}
use blemees_agent.Daemon.Ownership.Sessions.{
  IsSame, IsSame-refl, IsSame-trans, record_user_message-IsSame, resolve_permission-IsSame,
  push_watchers-IsSame,
}
use blemees_agent.Daemon.Ownership.Frame.{
  Keeps, Keeps-refl, Keeps-same, Keeps-trans, Keeps-put, Keeps-IsLinked,
}
use blemees_agent.Daemon.Ownership.Transfer.{IsLinked-release}

send_turn-Keeps :
    (c : ℕ) (msg : PromptMessage) (sent : Result (Unit {0})) (s0 s : Session) (b : Backend)
    (d : Daemon)
    → lookup msg.session_id d.table.sessions ≡ some s0
    → IsSame s0 s
    → Keeps d (send_turn c msg sent s b d).0
unfolding send_turn
send_turn-Keeps c msg (ok _) s0 s b d found same = Keeps-put msg.session_id s0 _ d found (
    IsSame-trans same (
      IsSame-trans (record { session_id = refl; connection_id = refl })
        (record_user_message-IsSame _ _)))
send_turn-Keeps c msg (err (session_busy_error why)) s0 s b d found same = Keeps-refl d
send_turn-Keeps c msg (err (spawn_failed_error why)) s0 s b d found same = Keeps-refl d
send_turn-Keeps c msg (err (protocol_error why)) s0 s b d found same = Keeps-refl d
send_turn-Keeps c msg (err _) s0 s b d found same = Keeps-refl d

respawn_failed-Keeps :
    (c : ℕ) (msg : PromptMessage) (e : Failure) (d : Daemon) → Keeps d (respawn_failed c msg e d).0
unfolding respawn_failed
respawn_failed-Keeps c msg (auth_required_error why) d = Keeps-refl d
respawn_failed-Keeps c msg (spawn_failed_error why) d = Keeps-refl d
respawn_failed-Keeps c msg _ d = Keeps-refl d

respawned-IsSame : (info : Spawned) (s : Session) → IsSame s (respawned info s)
respawned-IsSame info s = record { session_id = ground arith; connection_id = ground arith }

-- The session as it stands right after it was put back.
found_again :
    (id : String) (s : Session) (d : Daemon)
    → lookup id (put_session id s d).table.sessions ≡ some s
found_again id s d = lookup-insert id id s d.table.sessions ∙ rw (eq_refl id)

Keeps-if :
    (b : Bool) (d : Daemon) (x y : Handled)
    → Keeps d x.0
    → Keeps d y.0
    → Keeps d (if b then x else y).0
Keeps-if true d x y k l = k
Keeps-if false d x y k l = l

go_on-Keeps :
    (c : ℕ) (msg : PromptMessage) (sent : Result (Unit {0})) (info : Spawned) (s : Session)
    (d : Daemon)
    → lookup msg.session_id d.table.sessions ≡ some s
    → Keeps d (go_on c msg sent info s d).0
unfolding go_on
go_on-Keeps c msg sent info s d found =
    Keeps-if info.view_only d _ _ (Keeps-refl d)
      (send_turn-Keeps c msg sent s s (backend_of info) d found (IsSame-refl s))

respawn-Keeps :
    (c : ℕ) (msg : PromptMessage) (open_msg : OpenMessage) (answer : Option String → Result Spawned)
    (sent : Result (Unit {0})) (s : Session) (d : Daemon)
    → lookup msg.session_id d.table.sessions ≡ some s
    → Keeps d (respawn c msg open_msg answer sent s d).0
unfolding respawn
respawn-Keeps c msg open_msg answer sent s d found =
    elim (Result-cases (make_handle open_msg.profile open_msg.agent d.supervisor)) [
      | inl (e, raised) ↦ rw (raised, respawn) (Keeps-refl d)
      | inr (supervisor, made) ↦
          let d1 = record d { supervisor = supervisor } in
          elim (Result-cases (answer s.native_session_id)) [
            | inl (e, failed) ↦
                rw (made, failed, respawn)
                  (Keeps-trans (Keeps-same d d1 refl refl) (respawn_failed-Keeps c msg e d1))
            | inr (info, there) ↦
                let s1 = respawned info s in
                rw (made, there, respawn)
                  (Keeps-trans (Keeps-same d d1 refl refl) (
                    Keeps-trans (Keeps-put msg.session_id s s1 d1 found (respawned-IsSame info s)) (
                      go_on-Keeps c msg sent info s1 (put_session msg.session_id s1 d1)
                        (found_again msg.session_id s1 d1))))
          ]
    ]

respawn_opened-Keeps :
    (c : ℕ) (msg : PromptMessage) (answer : Option String → Result Spawned)
    (sent : Result (Unit {0})) (o : Option OpenMessage) (s : Session) (d : Daemon)
    → lookup msg.session_id d.table.sessions ≡ some s
    → Keeps d (respawn_opened c msg answer sent o s d).0
unfolding respawn_opened
respawn_opened-Keeps c msg answer sent none s d found = Keeps-refl d
respawn_opened-Keeps c msg answer sent (some open_msg) s d found =
    respawn-Keeps c msg open_msg answer sent s d found

drive-Keeps :
    (c : ℕ) (msg : PromptMessage) (answer : Option String → Result Spawned)
    (sent : Result (Unit {0})) (b : Option Backend) (s : Session) (d : Daemon)
    → lookup msg.session_id d.table.sessions ≡ some s
    → Keeps d (drive c msg answer sent b s d).0
unfolding drive
drive-Keeps c msg answer sent none s d found = respawn_opened-Keeps c msg answer sent _ s d found
drive-Keeps c msg answer sent (some b) s d found =
    Keeps-if b.running d _ _ (send_turn-Keeps c msg sent s s b d found (IsSame-refl s))
      (respawn_opened-Keeps c msg answer sent _ s d found)

pub handle_prompt-Keeps :
    (c : ℕ) (msg : PromptMessage) (answer : Option String → Result Spawned)
    (sent : Result (Unit {0})) (d : Daemon)
    → Keeps d (handle_prompt c msg answer sent d).0
unfolding handle_prompt prompt_session
handle_prompt-Keeps c msg answer sent d =
    Keeps-if (owns c msg.session_id d) d _ _
      (elim (Option-cases (try_get msg.session_id d)) [
        | inl gone ↦ rw gone (Keeps-refl d)
        | inr (s, found) ↦ rw found (
            Keeps-if s.view_only d _ _ (Keeps-refl d)
              (drive-Keeps c msg answer sent s.backend s d found))
      ])
      (Keeps-refl d)

-- Interrupts change nothing in the daemon.
pub handle_cancel-Keeps :
    (c : ℕ) (msg : CancelMessage) (killed : Bool) (d : Daemon)
    → Keeps d (handle_cancel c msg killed d).0
unfolding handle_cancel
handle_cancel-Keeps c msg killed d =
    let same : (handle_cancel c msg killed d).0 ≡ d = ground arith in
    Keeps-same d _ (ap (λ x. x.table) same) (ap (λ x. x.connections) same)

pub handle_permission_response-Keeps :
    (c : ℕ) (msg : PermissionResponseMessage) (d : Daemon)
    → Keeps d (handle_permission_response c msg d).0
unfolding handle_permission_response
handle_permission_response-Keeps c msg d =
    Keeps-if (owns c msg.session_id d) d _ _
      (elim (Option-cases (try_get msg.session_id d)) [
        | inl gone ↦ rw gone (Keeps-refl d)
        | inr (s, found) ↦
            rw found (Keeps-put msg.session_id s _ d found (resolve_permission-IsSame _ _ s))
      ])
      (Keeps-refl d)

tell_watchers-Keeps : (env : Env) (id : String) (d : Daemon) → Keeps d (tell_watchers env id d).0
tell_watchers-Keeps env id d = elim (Option-cases (try_get id d)) [
  | inl gone ↦ rw (gone, tell_watchers) (Keeps-refl d)
  | inr (s, found) ↦
      rw (found, tell_watchers) (Keeps-put id s _ d found (push_watchers-IsSame env _ s))
]

forget_record-Keeps :
    (delete : Bool) (id : String) (d : Daemon) → Keeps d (forget_record delete id d)
forget_record-Keeps true id d = Keeps-same d _ refl refl
forget_record-Keeps false id d = Keeps-refl d

owner_of-remove :
    (id j : String) (delete : Bool) (d : Daemon)
    → (id == j) ≡ false
    → owner_of j (set_table (remove id delete d.table).0 d).table.sessions
      ≡ owner_of j d.table.sessions
owner_of-remove id j delete d other = ap owner_in (
    lookup-remove id j delete d.table
    ∙ ap (λ b. if b then none else lookup j d.table.sessions) other)

-- The session is gone, and its owner has let go of it before.
pub handle_close-IsLinked :
    (env : Env) (c : ℕ) (msg : CloseMessage) (d : Daemon)
    → IsLinked d
    → IsLinked (handle_close env c msg d).0
unfolding handle_close
handle_close-IsLinked env c msg d w = elim (Bool-cases (owns c msg.session_id d)) [
  | inr foreign ↦ rw foreign w
  | inl mine ↦
      let id = msg.session_id in
      let d1 = change c (disown id) d in
      let told = tell_watchers-Keeps env id d1 in
      let e = (tell_watchers env id d1).0 in
      let r = (remove id msg.delete e.table).0 in
      rw mine (
        Keeps-IsLinked (forget_record-Keeps msg.delete id (set_table r e)) (
          IsLinked-release c id d (set_table r e) w (owned_of-owns c id d mine)
            (remove-IsValid id msg.delete e.table (told.valid w.valid))
            (λ j other. owner_of-remove id j msg.delete e other ∙ told.owners j)
            (λ k j h. owned_in-disown c k id j d.connections (told.holders k j h))))
]
