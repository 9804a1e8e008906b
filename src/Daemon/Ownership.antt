-- ===== src/Daemon/Ownership.antt =====
-- Who owns a session of the daemon (blemees_agent/daemon.py): the connections' sets of owned
-- sessions against the sessions' own `connection_id`.
pub mod Sessions
pub mod Frame
pub mod Transfer
pub mod Drive
pub mod Attach
pub mod Open
pub mod Spawn
pub mod Steps
pub mod Takeover
use blemees_agent.Prelude.{
  nat_eq, if◌then◌else◌, nat_eq_iff, Bool-cases, keep_if, Dict, lookup, ℕ, ◌-◌, String, ◌≡◌, refl,
  sym, ap, ◌∙◌, ◌⊎◌, inl, inr, Bool, true, false, not, ◌&&◌, ◌||◌, Option, none, some, List, [],
  ◌∷◌, arith, ◌==◌, eq_iff,
}
use blemees_agent.Session.{Session}
use blemees_agent.Table.Bounds.{IsValid}
use blemees_agent.Daemon.{
  Daemon, Connection, holds, discard_text, at_connection, own, disown, owns, lookup_connection,
}

-- The owner that a session names.
abbrev pub owner_in : Option Session → Option ℕ
owner_in none = none
owner_in (some s) = s.connection_id

abbrev pub owner_of : String → Dict Session → Option ℕ
owner_of id d = owner_in (lookup id d)

abbrev pub holds_at : String → Option Connection → Bool
holds_at id o = elim o [ none ↦ false | some k ↦ holds id k.owned ]

-- `owns`, over the connections alone.
abbrev pub owned_in : ℕ → String → List Connection → Bool
owned_in c id ks = holds_at id (lookup_connection c ks)

-- `owns` is what the theorems say of the connections.
pub owned_of-owns :
    (c : ℕ) (id : String) (d : Daemon) → owns c id d ≡ true → owned_in c id d.connections ≡ true
unfolding owns
owned_of-owns c id d h = h

-- What a connection holds as its own names the connection as its owner, and the table is valid.
pub record IsLinked (d : Daemon) : Type 0 where
  pub valid : IsValid d.table
  pub linked :
      (c : ℕ) (id : String)
      → owned_in c id d.connections ≡ true
      → owner_of id d.table.sessions ≡ some c

holds-discard_text :
    (id j : String) (xs : List String)
    → holds j (discard_text id xs) ≡ (holds j xs && not (id == j))
holds-discard_text id j [] = refl
holds-discard_text id j (x ∷ xs) =
    ground (arith, eq_iff x id, eq_iff x j, eq_iff id j, holds-discard_text id j xs)

holds_same :
    (id : String) (xs : List String)
    → holds id xs ≡ true
    → (j : String) → id ≡ j
    → holds j xs ≡ true
holds_same id xs h j e = ap (λ x. holds x xs) (sym e) ∙ h

or_true : (b : Bool) → (b || true) ≡ true
or_true b = ground arith

pub holds-add_text :
    (id j : String) (xs : List String)
    → holds j (if holds id xs then xs else id ∷ xs) ≡ (holds j xs || (id == j))
holds-add_text id j xs = elim (Bool-cases (holds id xs)) [
  | inl there ↦ rw there (elim (Bool-cases (id == j)) [
    | inl same ↦
        rw same (holds_same id xs there j ((eq_iff id j).0 same) ∙ sym (or_true (holds j xs)))
    | inr other ↦ rw other (ground arith)
  ])
  | inr away ↦ rw away (ground arith)
]

abbrev pub map_option : {A : Type 0} → (A → A) → Option A → Option A
map_option f none = none
map_option f (some a) = some (f a)

same_number : (a c k : ℕ) → nat_eq a k ≡ true → nat_eq c k ≡ nat_eq a c
same_number a c k h = ground arith

pub find-at_connection :
    (c k : ℕ) (f : Connection → Connection) (ks : List Connection)
    → ((x : Connection) → (f x).id ≡ x.id)
    → lookup_connection k (at_connection c f ks)
      ≡ (if nat_eq c k then map_option f (lookup_connection k ks) else lookup_connection k ks)
unfolding lookup_connection
find-at_connection c k f [] e = ground arith
find-at_connection c k f (x ∷ xs) e = elim (Bool-cases (nat_eq x.id c)) [
  | inl at ↦ elim (Bool-cases (nat_eq x.id k)) [
    | inl here ↦ rw (at, ap (λ n. nat_eq n k) (e x) ∙ here, here, same_number x.id c k here ∙ at)
    | inr there ↦ rw (at, ap (λ n. nat_eq n k) (e x) ∙ there, there) (find-at_connection c k f xs e)
  ]
  | inr off ↦ elim (Bool-cases (nat_eq x.id k)) [
    | inl here ↦ rw (off, here, same_number x.id c k here ∙ off)
    | inr there ↦ rw (off, there) (find-at_connection c k f xs e)
  ]
]

number_apart : (a c k : ℕ) → nat_eq a c ≡ true → nat_eq k c ≡ false → nat_eq a k ≡ false
number_apart a c k h n = ground arith

number_other : (a c k : ℕ) → nat_eq a k ≡ true → nat_eq a c ≡ false → nat_eq k c ≡ false
number_other a c k h n = ground arith

-- What a change does to what a connection holds.
held_after :
    (j : String) (f : Connection → Connection) (g : Bool → Bool) (o : Option Connection)
    → ((x : Connection) → holds j (f x).owned ≡ g (holds j x.owned))
    → holds_at j (map_option f o) ≡ true
    → g (holds_at j o) ≡ true
held_after j f g none h owned = cc
held_after j f g (some x) h owned = sym (h x) ∙ owned

owned_in-at_connection :
    (c k : ℕ) (j : String) (f : Connection → Connection) (g : Bool → Bool) (ks : List Connection)
    → ((x : Connection) → (f x).id ≡ x.id)
    → ((x : Connection) → holds j (f x).owned ≡ g (holds j x.owned))
    → owned_in k j (at_connection c f ks) ≡ true
    → ((nat_eq c k ≡ false) × (owned_in k j ks ≡ true)) ⊎ ((c ≡ k) × (g (owned_in k j ks) ≡ true))
owned_in-at_connection c k j f g ks e h owned =
    let found = sym (ap (holds_at j) (find-at_connection c k f ks e)) ∙ owned in
    elim (Bool-cases (nat_eq c k)) [
      | inl same ↦
          inr (
            (nat_eq_iff c k).0 same,
            held_after j f g (lookup_connection k ks) h (rw same at found),
          )
      | inr other ↦ inl (other, rw other at found)
    ]

and_not : (a b : Bool) → (a && not b) ≡ true → (a ≡ true) × (b ≡ false)
and_not a b h = ground arith

or_cases : (a b : Bool) → (a || b) ≡ true → (a ≡ true) ⊎ (b ≡ true)
or_cases a b h = ground arith

-- A connection that lets go of a session no longer holds it, and nobody holds more.
pub owned_in-disown :
    (c k : ℕ) (id j : String) (ks : List Connection)
    → owned_in k j (at_connection c (disown id) ks) ≡ true
    → (owned_in k j ks ≡ true) × ((nat_eq c k ≡ false) ⊎ ((id == j) ≡ false))
owned_in-disown c k id j ks owned =
    elim (owned_in-at_connection c k j (disown id) (λ b. b && not (id == j)) ks (λ x. refl)
      (λ x. holds-discard_text id j x.owned) owned) [
        | inl (other, held) ↦ (held, inl other)
        | inr (_, kept) ↦ let (held, other) = and_not _ _ kept in (held, inr other)
      ]

-- A connection that takes a session holds that one more.
pub owned_in-own :
    (c k : ℕ) (id j : String) (ks : List Connection)
    → owned_in k j (at_connection c (own id) ks) ≡ true
    → (owned_in k j ks ≡ true) ⊎ ((c ≡ k) × ((id == j) ≡ true))
owned_in-own c k id j ks owned =
    elim (owned_in-at_connection c k j (own id) (λ b. b || (id == j)) ks (λ x. refl)
      (λ x. holds-add_text id j x.owned) owned) [
        | inl (other, held) ↦ inl held
        | inr (same, kept) ↦ elim (or_cases _ _ kept) [
          | inl held ↦ inl held
          | inr new ↦ inr (same, new)
        ]
      ]

-- What leaves the owned sessions alone leaves them so everywhere.
pub owned_in-unchanged :
    (c k : ℕ) (j : String) (f : Connection → Connection) (ks : List Connection)
    → ((x : Connection) → (f x).id ≡ x.id)
    → ((x : Connection) → (f x).owned ≡ x.owned)
    → owned_in k j (at_connection c f ks) ≡ true
    → owned_in k j ks ≡ true
owned_in-unchanged c k j f ks e h owned =
    elim (owned_in-at_connection c k j f (λ b. b) ks e (λ x. ap (holds j) (h x)) owned) [
      | inl (_, held) ↦ held
      | inr (_, held) ↦ held
    ]

-- A connection that holds nothing comes, and a connection goes.
pub owned_in-accept :
    (c k : ℕ) (j : String) (ks : List Connection)
    → owned_in k j (record { id = c; owned = []; watched = [] } ∷ ks) ≡ true
    → owned_in k j ks ≡ true
unfolding lookup_connection
owned_in-accept c k j ks owned = elim (Bool-cases (nat_eq c k)) [
  | inl same ↦ let bad : false ≡ true = rw same at owned in cc
  | inr other ↦ rw other at owned
]

pub owned_in-drop :
    (c k : ℕ) (j : String) (ks : List Connection)
    → owned_in k j (keep_if (λ x. not (nat_eq x.id c)) ks) ≡ true
    → (owned_in k j ks ≡ true) × (nat_eq k c ≡ false)
unfolding lookup_connection
owned_in-drop c k j [] owned = cc
owned_in-drop c k j (x ∷ ks) owned = elim (Bool-cases (nat_eq x.id c)) [
  | inl gone ↦
      let (held, other) = owned_in-drop c k j ks (rw gone at owned) in
      (rw (number_apart x.id c k gone other) held, other)
  | inr kept ↦ elim (Bool-cases (nat_eq x.id k)) [
    | inl here ↦ (rw here (rw (kept, here) at owned), number_other x.id c k here kept)
    | inr there ↦
        let (held, other) = owned_in-drop c k j ks (rw (kept, there) at owned) in
        (rw there held, other)
  ]
]
