-- ===== src/Daemon/Attach.antt =====
-- The handlers of blemees_agent/daemon.py that attach a connection to a session, and detach it.
use blemees_agent.Prelude.{
  nat_eq, if◌then◌else◌, from_option, ℕ, String, Bool, true, false, none, some, [], ◌∷◌, ◌++◌,
}
use blemees_agent.Errors.{session_unknown}
use blemees_agent.Protocol.Messages.{AttachMessage, DetachMessage, owner, viewer}
use blemees_agent.Session.{Session, Env}
use blemees_agent.Session.Attach.{attach, add_watcher, remove_watcher, detach_writer}
use blemees_agent.Daemon.{
  attached_reply, detached_reply, error_reply, reply, Daemon, Handled, finished, change, own,
  disown, watch, unwatch, owns, try_get, put_session, session_effects, told, take_from,
}

-- A viewer: the replay goes out before the reply.
unfoldable pub attach_viewer : Env → ℕ → AttachMessage → Session → Daemon → Handled
attach_viewer env c msg s d =
    let id = msg.session_id in
    let a = add_watcher env c msg.last_seen_seq s in
    finished (change c (watch id) (put_session id a.0 d))
      (session_effects id a.1 ++ reply c (attached_reply msg.id id viewer a.0.seq) ∷ [])

-- An owner: the one before is told and loses the session, and the reply goes out before the
-- replay.
unfoldable pub attach_owner : Env → ℕ → AttachMessage → Session → Daemon → Handled
unfolding take_from
attach_owner env c msg s d =
    let id = msg.session_id in
    let t = take_from s.connection_id c id d in
    let a = attach env c (some (from_option 0 msg.last_seen_seq)) s in
    finished (told env a.1 (put_session id a.0 (change c (own id) t.0)))
      (t.1 ++ reply c (attached_reply msg.id id owner s.seq) ∷ session_effects id a.1)

-- `_handle_attach`
unfoldable pub handle_attach : Env → ℕ → AttachMessage → Daemon → Handled
unfolding attach_viewer attach_owner
handle_attach env c msg d = elim (try_get msg.session_id d) [
  | none ↦ finished d (reply c (error_reply session_unknown msg.id (some msg.session_id)) ∷ [])
  | some s ↦ elim msg.role [
    | viewer ↦ attach_viewer env c msg s d
    | owner ↦ attach_owner env c msg s d
  ]
]

abbrev pub is_owner : ℕ → Session → Bool
is_owner c s = elim s.connection_id [ none ↦ false | some k ↦ nat_eq k c ]

-- The owner's part of `_handle_detach`
unfoldable pub detach_owner : ℕ → ℕ → String → Daemon → Daemon
detach_owner now c id d = elim (try_get id d) [
  | none ↦ d
  | some s ↦ if is_owner c s then put_session id (detach_writer now s) d else d
]

unfoldable pub detach_viewer : ℕ → String → Daemon → Daemon × Bool
detach_viewer c id d = elim (try_get id d) [
  | none ↦ (d, false)
  | some s ↦ let r = remove_watcher c s in (put_session id r.0 d, r.1)
]

-- `_handle_detach`
unfoldable pub handle_detach : ℕ → ℕ → DetachMessage → Daemon → Handled
unfolding detach_owner detach_viewer
handle_detach now c msg d =
    let id = msg.session_id in
    if owns c id d
    then finished (detach_owner now c id (change c (disown id) d))
        (reply c (detached_reply msg.id id true) ∷ [])
    else (let r = detach_viewer c id d in
        finished (change c (unwatch id) r.0) (reply c (detached_reply msg.id id r.1) ∷ []))
