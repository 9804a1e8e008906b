-- ===== src/Daemon/Ownership/Frame.antt =====
-- Steps of the daemon of blemees_agent/daemon.py that leave every session with its owner.
use blemees_agent.Prelude.{
  if◌then◌else◌, Bool-cases, from_option, Dict, lookup, insert, lookup-insert, ℕ, String, ◌≡◌, refl,
  sym, ap, ◌∙◌, inl, inr, true, some, [], ◌∷◌, ◌==◌, eq_iff,
}
use mathlib.Core.Path.{subst}
use blemees_agent.Session.{Session}
use blemees_agent.Table.Bounds.{IsValid, Keyed, update-IsValid}
use blemees_agent.Daemon.{Daemon, Connection, put_session, change}
use blemees_agent.Daemon.Ownership.{owner_of, owner_in, owned_in, IsLinked, owned_in-unchanged}
use blemees_agent.Daemon.Ownership.Sessions.{IsSame}

-- From `d` to `e` no owner changes, and no connection holds more.
pub record Keeps (d e : Daemon) : Type 0 where
  pub valid : IsValid d.table → IsValid e.table
  pub owners : (j : String) → owner_of j e.table.sessions ≡ owner_of j d.table.sessions
  pub holders :
      (c : ℕ) (j : String) → owned_in c j e.connections ≡ true → owned_in c j d.connections ≡ true

pub Keeps-refl : (d : Daemon) → Keeps d d
Keeps-refl d = record { valid = λ w. w; owners = λ j. refl; holders = λ c j h. h }

-- The registry, the supervisor, the notify service and the opening messages have no owners.
pub Keeps-same : (d e : Daemon) → e.table ≡ d.table → e.connections ≡ d.connections → Keeps d e
Keeps-same d e t k = record {
  valid = λ w. subst IsValid (sym t) w;
  owners = λ j. ap (λ x. owner_of j x.sessions) t;
  holders = λ c j h. ap (owned_in c j) (sym k) ∙ h;
}

pub Keeps-trans : {d e f : Daemon} → Keeps d e → Keeps e f → Keeps d f
Keeps-trans a b = record {
  valid = λ w. b.valid (a.valid w);
  owners = λ j. b.owners j ∙ a.owners j;
  holders = λ c j h. a.holders c j (b.holders c j h);
}

pub Keeps-IsLinked : {d e : Daemon} → Keeps d e → IsLinked d → IsLinked e
Keeps-IsLinked k w = record {
  valid = k.valid w.valid;
  linked = λ c j h. k.owners j ∙ w.linked c j (k.holders c j h);
}

-- In a valid table a session is found under its own id.
pub lookup-Keyed :
    (id : String) (s : Session) (d : Dict Session)
    → Keyed d
    → lookup id d ≡ some s
    → s.session_id ≡ id
unfolding lookup
lookup-Keyed id s [] k h = cc
lookup-Keyed id s ((i, v) ∷ d) k h = elim (Bool-cases (i == id)) [
  | inl same ↦
      let e : v ≡ s = ap (from_option v) (rw same at h) in
      ap (λ x. x.session_id) (sym e) ∙ k.0 ∙ (eq_iff i id).0 same
  | inr other ↦ lookup-Keyed id s d k.1 (rw other at h)
]

pub owner_of-insert :
    (id j : String) (s : Session) (d : Dict Session)
    → owner_of j (insert id s d) ≡ (if id == j then s.connection_id else owner_of j d)
owner_of-insert id j s d =
    ap owner_in (lookup-insert id j s d)
    ∙ (elim (Bool-cases (id == j)) [ inl same ↦ rw same | inr other ↦ rw other ])

-- A session is put back under the owner that it had.
pub Keeps-put :
    (id : String) (s t : Session) (d : Daemon)
    → lookup id d.table.sessions ≡ some s
    → IsSame s t
    → Keeps d (put_session id t d)
Keeps-put id s t d held same = record {
  valid = λ w.
      update-IsValid d.table id t s w held
        (same.session_id ∙ lookup-Keyed id s d.table.sessions w.keyed held);
  owners = λ j. owner_of-insert id j t d.table.sessions ∙ (elim (Bool-cases (id == j)) [
    | inl eq ↦ rw eq (
        same.connection_id
        ∙ sym (ap owner_in (ap (λ x. lookup x d.table.sessions) (sym ((eq_iff id j).0 eq)) ∙ held)))
    | inr other ↦ rw other
  ]);
  holders = λ c j h. h;
}

-- A connection changes, but not in what it owns.
pub Keeps-change :
    (c : ℕ) (f : Connection → Connection) (d : Daemon)
    → ((x : Connection) → (f x).id ≡ x.id)
    → ((x : Connection) → (f x).owned ≡ x.owned)
    → Keeps d (change c f d)
Keeps-change c f d e h = record {
  valid = λ w. w;
  owners = λ j. refl;
  holders = λ k j o. owned_in-unchanged c k j f d.connections e h o;
}
