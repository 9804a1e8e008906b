-- ===== src/Daemon/Ownership/Takeover.antt =====
-- The takeover of a session by another connection (blemees_agent/daemon.py, `_handle_attach`).
use blemees_agent.Prelude.{
  nat_eq, if◌then◌else◌, nat_eq_iff, Bool-cases, from_option, In, lookup, ℕ, String, ◌≡◌, refl, sym,
  ap, ◌∙◌, inl, inr, Bool, true, false, ◌||◌, some, List, [], ◌∷◌, ◌++◌, arith, eq_refl,
}
use mathlib.Core.Path.{subst}
use blemees_agent.Protocol.Messages.{AttachMessage, owner}
use blemees_agent.Session.{Session, Env}
use blemees_agent.Session.Attach.{attach}
use blemees_agent.Daemon.{
  holds, Daemon, Connection, reply, attached_reply, session_effects, taken_notice, owns,
  lookup_connection, take_from, at_connection, own, disown, change,
}
use blemees_agent.Daemon.Attach.{attach_owner, handle_attach}
use blemees_agent.Daemon.Ownership.{
  IsLinked, owner_of, owned_in, holds_at, map_option, find-at_connection, holds-add_text,
}
use blemees_agent.Daemon.Ownership.Attach.{handle_attach-IsLinked}
use blemees_agent.Daemon.Ownership.Transfer.{IsLinked-unique}

nat_eq_refl : (n : ℕ) → nat_eq n n ≡ true
nat_eq_refl n = (nat_eq_iff n n).1 refl

-- What one connection holds another does not.
not_held :
    (k c : ℕ) (id : String) (d : Daemon)
    → IsLinked d
    → owned_in c id d.connections ≡ true
    → nat_eq k c ≡ false
    → owned_in k id d.connections ≡ false
not_held k c id d w mine other = elim (Bool-cases (owned_in k id d.connections)) [
  | inl yours ↦
      absurd
        (let bad = sym ((nat_eq_iff k c).1 (IsLinked-unique d k c id w yours mine)) ∙ other in cc)
  | inr free ↦ free
]

or_last : (a : Bool) → (a || true) ≡ true
or_last a = ground arith

-- A connection that is there and takes a session holds it.
pub owned_in-own_here :
    (c : ℕ) (id : String) (k : Connection) (ks : List Connection)
    → lookup_connection c ks ≡ some k
    → owned_in c id (at_connection c (own id) ks) ≡ true
owned_in-own_here c id k ks there =
    ap (holds_at id) (
      find-at_connection c c (own id) ks (λ x. refl)
      ∙ ap (λ b. if b then map_option (own id) (lookup_connection c ks) else lookup_connection c ks)
          (nat_eq_refl c)
      ∙ ap (map_option (own id)) there)
    ∙ holds-add_text id id k.owned
    ∙ ap (λ b. holds id k.owned || b) (eq_refl id)
    ∙ or_last (holds id k.owned)

-- The session is taken from a connection that is there.
take_from-told :
    (prev c : ℕ) (id : String) (k : Connection) (d : Daemon)
    → lookup_connection prev d.connections ≡ some k
    → nat_eq prev c ≡ false
    → take_from (some prev) c id d ≡ (change prev (disown id) d, reply prev (taken_notice id) ∷ [])
unfolding take_from
take_from-told prev c id k d there other = rw (other, there) refl

-- When connection `c` attaches as owner to a session that connection `prev` holds, `prev` is told
-- that the session was taken and no longer holds it, and `c` holds it and is the owner that the
-- session names.
pub handle_attach-takeover :
    (env : Env) (c prev : ℕ) (msg : AttachMessage) (d : Daemon) (s : Session) (k kp : Connection)
    → IsLinked d
    → msg.role ≡ owner
    → lookup msg.session_id d.table.sessions ≡ some s
    → s.connection_id ≡ some prev
    → lookup_connection c d.connections ≡ some k
    → lookup_connection prev d.connections ≡ some kp
    → nat_eq prev c ≡ false
    → (owns c msg.session_id (handle_attach env c msg d).0 ≡ true)
      × (owns prev msg.session_id (handle_attach env c msg d).0 ≡ false)
      × (owner_of msg.session_id (handle_attach env c msg d).0.table.sessions ≡ some c)
      × In (reply prev (taken_notice msg.session_id)) (handle_attach env c msg d).1
unfolding handle_attach attach_owner owns
handle_attach-takeover env c prev msg d s k kp w role found named there there_prev other =
    let id = msg.session_id in
    let e = (handle_attach env c msg d).0 in
    let told : take_from s.connection_id c id d
        ≡ (change prev (disown id) d, reply prev (taken_notice id) ∷ []) =
      ap (λ o. take_from o c id d) named ∙ take_from-told prev c id kp d there_prev other in
    let runs : handle_attach env c msg d ≡ attach_owner env c msg s d =
      rw (found, role, handle_attach) refl in
    let still : lookup_connection c (at_connection prev (disown id) d.connections) ≡ some k =
      find-at_connection prev c (disown id) d.connections (λ x. refl)
      ∙ ap
          (λ b.
            if b
            then map_option (disown id) (lookup_connection c d.connections)
            else lookup_connection c d.connections)
          other
      ∙ there in
    let mine : owned_in c id e.connections ≡ true =
      ap (λ h. owned_in c id h.0.connections) runs
      ∙ ap (λ t. owned_in c id (at_connection c (own id) t.0.connections)) told
      ∙ owned_in-own_here c id k (at_connection prev (disown id) d.connections) still in
    let linked = handle_attach-IsLinked env c msg d w in
    (
      mine,
      not_held prev c id e linked mine other,
      linked.linked c id mine,
      subst (λ h. In (reply prev (taken_notice id)) h.1) (sym runs)
          (subst
            (λ t. In (reply prev (taken_notice id)) (
              t.1
              ++ reply c (attached_reply msg.id id owner s.seq)
                ∷ session_effects id (attach env c (some (from_option 0 msg.last_seen_seq)) s).1))
            (sym told) (inl refl)),
    )
