-- ===== src/Daemon/Dispatch/Refusals.antt =====
-- What the daemon refuses (blemees_agent/daemon.py): a session that another connection owns, and a
-- change to a profile that is in use.
use blemees_agent.Prelude.{
  Bool-cases, from_option, keep_if, Dict, lookup, values, ℕ, String, ◌≡◌, refl, sym, ap, ◌∙◌, inl,
  inr, Bool, true, false, Option, none, some, List, [], ◌∷◌, ◌==◌, eq_refl,
}
use blemees_agent.Errors.{profile_in_use}
use blemees_agent.Protocol.Messages.{ProfileActionMessage, ProfileMutateMessage}
use blemees_agent.Session.{Session, Env}
use blemees_agent.Daemon.{Daemon, DaemonEffect, reply, error_reply, finished, owns}
use blemees_agent.Daemon.Drive.{
  handle_prompt, handle_cancel, handle_close, handle_permission_response,
}
use blemees_agent.Daemon.Profiles.{
  is_bound, live_sessions_for, unless_in_use, handle_profile_update, handle_profile_delete,
}
use blemees_agent.Daemon.Steps.{settle}
use blemees_agent.Daemon.Dispatch.{
  Request, open_request, prompt_request, cancel_request, close_request, ping_request, info_request,
  attach_request, detach_request, permission_request, stop_request, delete_request, create_request,
  update_request, notify_test_request, handle, dispatch,
}

-- The session that a request drives: only its owner may.
abbrev pub driven : Request → Option String
driven (prompt_request msg answer sent) = some msg.session_id
driven (cancel_request msg killed) = some msg.session_id
driven (close_request msg) = some msg.session_id
driven (permission_request msg) = some msg.session_id
driven _ = none

-- Nothing but replies on the connection `c`.
abbrev pub OnlyReplies : ℕ → List DaemonEffect → Type 0
OnlyReplies c [] = Unit
OnlyReplies c (reply k r ∷ es) = (k ≡ c) × OnlyReplies c es
OnlyReplies c (_ ∷ es) = ⊥

-- `id` is not the owner's, in the form in which a handler tests it.
foreign :
    (c : ℕ) (id j : String) (d : Daemon)
    → some j ≡ some id
    → owns c id d ≡ false
    → owns c j d ≡ false
foreign c id j d e other = ap (λ x. owns c x d) (ap (from_option j) e) ∙ other

module _ (which : String → Bool) where
  -- A prompt, an interrupt, a close or a permission response of a connection that does not own
  -- the session changes nothing: not the daemon, and no session, backend, file or other connection
  -- is told of it.
  pub dispatch-foreign :
      (env : Env) (c now : ℕ) (m session : Option String) (r : Request) (id : String) (d : Daemon)
      → driven r ≡ some id
      → owns c id d ≡ false
      → ((dispatch which env c now m session r d).0 ≡ d)
        × OnlyReplies c (dispatch which env c now m session r d).1
  unfolding dispatch handle settle handle_prompt handle_cancel handle_close
      handle_permission_response
  dispatch-foreign env c now m session (prompt_request msg answer sent) id d e other =
      rw (foreign c id msg.session_id d e other, handle_prompt) (refl, (refl, tt))
  dispatch-foreign env c now m session (cancel_request msg killed) id d e other =
      rw (foreign c id msg.session_id d e other, handle_cancel) (refl, (refl, tt))
  dispatch-foreign env c now m session (close_request msg) id d e other =
      rw (foreign c id msg.session_id d e other, handle_close) (refl, (refl, tt))
  dispatch-foreign env c now m session (permission_request msg) id d e other =
      rw (foreign c id msg.session_id d e other, handle_permission_response) (refl, tt)
  dispatch-foreign env c now m session (open_request msg answer) id d e other = cc
  dispatch-foreign env c now m session (ping_request msg) id d e other = cc
  dispatch-foreign env c now m session (info_request msg to_int) id d e other = cc
  dispatch-foreign env c now m session (attach_request msg) id d e other = cc
  dispatch-foreign env c now m session (detach_request msg) id d e other = cc
  dispatch-foreign env c now m session (stop_request msg) id d e other = cc
  dispatch-foreign env c now m session (delete_request msg) id d e other = cc
  dispatch-foreign env c now m session (create_request msg) id d e other = cc
  dispatch-foreign env c now m session (update_request msg) id d e other = cc
  dispatch-foreign env c now m session (notify_test_request msg) id d e other = cc

-- A session that is bound to the profile is found among its live sessions.
bound_found :
    (name id : String) (s : Session) (d : Dict Session)
    → lookup id d ≡ some s
    → s.profile_name ≡ some name
    → (v : Session) × (rest : List Session) × (keep_if (is_bound name) (values d) ≡ v ∷ rest)
unfolding lookup
bound_found name id s [] found bound = cc
bound_found name id s ((i, v) ∷ d) found bound = elim (Bool-cases (is_bound name v)) [
  | inl here ↦ (v, keep_if (is_bound name) (values d), rw here)
  | inr elsewhere ↦ elim (Bool-cases (i == id)) [
    | inl same ↦ absurd (
        let e : v ≡ s = ap (from_option v) (rw same at found) in
        let n : is_bound name v ≡ true =
          ap (is_bound name) e
          ∙ ap (λ o. elim o [ none ↦ false | some p ↦ p == name ]) bound
          ∙ eq_refl name in
        let bad = sym n ∙ elsewhere in cc)
    | inr other ↦
        let (w, rest, e) = bound_found name id s d (rw other at found) bound in
        (w, rest, rw elsewhere e)
  ]
]

-- A profile that a session is bound to, attached or detached, is neither updated nor deleted:
-- both requests leave the daemon as it is and are answered with `profile_in_use`.
pub profile_in_use-refused :
    (which : String → Bool) (c : ℕ) (update : ProfileMutateMessage) (delete : ProfileActionMessage)
    (id : String) (s : Session) (d : Daemon)
    → lookup id d.table.sessions ≡ some s
    → s.profile_name ≡ some update.name
    → delete.name ≡ update.name
    → (handle_profile_update which c update d
        ≡ finished d (reply c (error_reply profile_in_use update.id none) ∷ []))
      × (handle_profile_delete c delete d
          ≡ finished d (reply c (error_reply profile_in_use delete.id none) ∷ []))
unfolding handle_profile_update handle_profile_delete live_sessions_for
profile_in_use-refused which c update delete id s d found bound same =
    let (v, rest, e) = bound_found update.name id s d.table.sessions found bound in
    (rw (e, unless_in_use), rw (ap (λ n. live_sessions_for n d) same ∙ e, unless_in_use))
