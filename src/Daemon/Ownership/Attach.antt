-- ===== src/Daemon/Ownership/Attach.antt =====
-- The ownership of sessions where connections attach and detach (blemees_agent/daemon.py).
use blemees_agent.Prelude.{
  if◌then◌else◌, Bool-cases, Option-cases, from_option, Dict, lookup, insert, ℕ, String, ◌≡◌, refl,
  sym, ap, ◌∙◌, ◌⊎◌, inl, inr, false, some, arith, ◌==◌, eq_refl,
}
use mathlib.Core.Path.{subst}
use blemees_agent.Protocol.Messages.{Role, AttachMessage, DetachMessage, owner, viewer}
use blemees_agent.Session.{Session, Env}
use blemees_agent.Session.Attach.{attach, add_watcher, detach_writer, take_over}
use blemees_agent.Table.{SessionTable}
use blemees_agent.Table.Bounds.{IsValid, update-IsValid}
use blemees_agent.Daemon.{
  Daemon, owns, try_get, put_session, change, own, disown, watch, unwatch, take_from,
}
use blemees_agent.Daemon.Attach.{
  attach_viewer, attach_owner, handle_attach, is_owner, detach_owner, detach_viewer, handle_detach,
}
use blemees_agent.Daemon.Ownership.{
  owned_of-owns, owner_of, owned_in, IsLinked, owned_in-disown, owned_in-own,
}
use blemees_agent.Daemon.Ownership.Sessions.{
  IsSame, add_watcher-IsSame, remove_watcher-IsSame, attach-IsSame,
}
use blemees_agent.Daemon.Ownership.Frame.{
  Keeps, Keeps-refl, Keeps-trans, Keeps-put, Keeps-change, Keeps-IsLinked, lookup-Keyed,
  owner_of-insert,
}
use blemees_agent.Daemon.Ownership.Transfer.{
  IsLinked-release, IsLinked-take, table-take_from, take_from-alone,
}

attach_viewer-Keeps :
    (env : Env) (c : ℕ) (msg : AttachMessage) (s : Session) (d : Daemon)
    → lookup msg.session_id d.table.sessions ≡ some s
    → Keeps d (attach_viewer env c msg s d).0
unfolding attach_viewer
attach_viewer-Keeps env c msg s d found =
    let t = (add_watcher env c msg.last_seen_seq s).0 in
    Keeps-trans
      (Keeps-put msg.session_id s t d found (add_watcher-IsSame env c msg.last_seen_seq s))
      (Keeps-change c (watch msg.session_id) (put_session msg.session_id t d) (λ x. refl)
        (λ x. refl))

pub owner_of-insert_here :
    (id : String) (s : Session) (d : Dict Session) → owner_of id (insert id s d) ≡ s.connection_id
owner_of-insert_here id s d =
    owner_of-insert id id s d ∙ ap (λ b. if b then s.connection_id else owner_of id d) (eq_refl id)

pub owner_of-insert_other :
    (id j : String) (s : Session) (d : Dict Session)
    → (id == j) ≡ false
    → owner_of j (insert id s d) ≡ owner_of j d
owner_of-insert_other id j s d other =
    owner_of-insert id j s d ∙ ap (λ b. if b then s.connection_id else owner_of j d) other

-- A session that is found is taken from its owner, changed, and put back as the new owner's.
pub take_over-IsLinked :
    (c : ℕ) (id : String) (s t : Session) (d e : Daemon)
    → IsLinked d
    → lookup id d.table.sessions ≡ some s
    → IsSame (take_over c s) t
    → e.table ≡ (put_session id t d).table
    → e.connections ≡ (change c (own id) (take_from s.connection_id c id d).0).connections
    → IsLinked e
take_over-IsLinked c id s t d e w found same table connections =
    IsLinked-take c id d e w
      (subst IsValid (sym table) (
        update-IsValid d.table id t s w.valid found
          (same.session_id ∙ lookup-Keyed id s d.table.sessions w.valid.keyed found)))
      (ap (λ x. owner_of id x.sessions) table
        ∙ owner_of-insert_here id t d.table.sessions
        ∙ same.connection_id)
      (λ j other.
        ap (λ x. owner_of j x.sessions) table ∙ owner_of-insert_other id j t d.table.sessions other)
      (λ k j h.
        elim (owned_in-own c k id j (take_from s.connection_id c id d).0.connections
          (sym (ap (owned_in k j) connections) ∙ h)) [
            | inl held ↦ inr (take_from-alone s.connection_id c k id j s d w found refl held)
            | inr new ↦ inl new
          ])

attach_owner-IsLinked :
    (env : Env) (c : ℕ) (msg : AttachMessage) (s : Session) (d : Daemon)
    → IsLinked d
    → lookup msg.session_id d.table.sessions ≡ some s
    → IsLinked (attach_owner env c msg s d).0
unfolding attach_owner
attach_owner-IsLinked env c msg s d w found =
    let seen = some (from_option 0 msg.last_seen_seq) in
    let t = (attach env c seen s).0 in
    take_over-IsLinked c msg.session_id s t d _ w found (attach-IsSame env c seen s)
      (ap {A = SessionTable} (λ x. record x { sessions = insert msg.session_id t x.sessions })
        (table-take_from s.connection_id c msg.session_id d))
      refl

pub Role-cases : (r : Role) → (r ≡ owner) ⊎ (r ≡ viewer)
Role-cases owner = inl refl
Role-cases viewer = inr refl

-- A session keeps naming the connection that holds it when connections attach to it, as owners or
-- as viewers.
pub handle_attach-IsLinked :
    (env : Env) (c : ℕ) (msg : AttachMessage) (d : Daemon)
    → IsLinked d
    → IsLinked (handle_attach env c msg d).0
unfolding handle_attach
handle_attach-IsLinked env c msg d w = elim (Option-cases (try_get msg.session_id d)) [
  | inl gone ↦ rw (gone, handle_attach) w
  | inr (s, found) ↦ elim (Role-cases msg.role) [
    | inl as_owner ↦
        rw (found, as_owner, handle_attach) (attach_owner-IsLinked env c msg s d w found)
    | inr as_viewer ↦
        rw (found, as_viewer, handle_attach)
          (Keeps-IsLinked (attach_viewer-Keeps env c msg s d found) w)
  ]
]

detach_viewer-Keeps : (c : ℕ) (id : String) (d : Daemon) → Keeps d (detach_viewer c id d).0
unfolding detach_viewer
detach_viewer-Keeps c id d = elim (Option-cases (try_get id d)) [
  | inl gone ↦ rw (gone, detach_viewer) (Keeps-refl d)
  | inr (s, found) ↦
      rw (found, detach_viewer, detach_viewer)
        (Keeps-put id s _ d found (remove_watcher-IsSame c s))
]

-- The owner's part: no other session changes hands.
detach_owner-IsValid :
    (now c : ℕ) (id : String) (d : Daemon)
    → IsValid d.table
    → IsValid (detach_owner now c id d).table
unfolding detach_owner detach_writer
detach_owner-IsValid now c id d w = elim (Option-cases (try_get id d)) [
  | inl gone ↦ rw (gone, detach_owner) w
  | inr (s, found) ↦ elim (Bool-cases (is_owner c s)) [
    | inl mine ↦
        rw (found, mine, detach_owner)
          (update-IsValid d.table id (detach_writer now s) s w found
            (lookup-Keyed id s d.table.sessions w.keyed found))
    | inr foreign ↦ rw (found, foreign, detach_owner) w
  ]
]

detach_owner-other :
    (now c : ℕ) (id j : String) (d : Daemon)
    → (id == j) ≡ false
    → owner_of j (detach_owner now c id d).table.sessions ≡ owner_of j d.table.sessions
unfolding detach_owner
detach_owner-other now c id j d other = elim (Option-cases (try_get id d)) [
  | inl gone ↦ rw (gone, detach_owner)
  | inr (s, found) ↦ elim (Bool-cases (is_owner c s)) [
    | inl mine ↦
        rw (found, mine, detach_owner)
          (owner_of-insert_other id j (detach_writer now s) d.table.sessions other)
    | inr foreign ↦ rw (found, foreign, detach_owner)
  ]
]

detach_owner-connections :
    (now c : ℕ) (id : String) (d : Daemon) → (detach_owner now c id d).connections ≡ d.connections
unfolding detach_owner
detach_owner-connections now c id d = ground arith

pub handle_detach-IsLinked :
    (now c : ℕ) (msg : DetachMessage) (d : Daemon)
    → IsLinked d
    → IsLinked (handle_detach now c msg d).0
unfolding handle_detach
handle_detach-IsLinked now c msg d w =
    let id = msg.session_id in
    elim (Bool-cases (owns c msg.session_id d)) [
      | inl mine ↦
          let d1 = change c (disown id) d in
          rw mine (
            IsLinked-release c id d (detach_owner now c id d1) w (owned_of-owns c id d mine)
              (detach_owner-IsValid now c id d1 w.valid)
              (λ j other. detach_owner-other now c id j d1 other)
              (λ k j h.
                owned_in-disown c k id j d.connections
                  (sym (ap (owned_in k j) (detach_owner-connections now c id d1)) ∙ h)))
      | inr foreign ↦ rw foreign (
          Keeps-IsLinked
            (Keeps-change c (unwatch id) (detach_viewer c id d).0 (λ x. refl) (λ x. refl))
            (Keeps-IsLinked (detach_viewer-Keeps c id d) w))
    ]
