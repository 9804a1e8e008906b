-- ===== src/Daemon/Ownership/Transfer.antt =====
-- Steps of the daemon of blemees_agent/daemon.py that release a session or give it to another
-- connection.
use blemees_agent.Prelude.{
  nat_eq, nat_eq_iff, Bool-cases, Option-cases, is_none, from_option, lookup, ℕ, String, ◌≡◌, refl,
  sym, ap, ◌∙◌, ◌⊎◌, inl, inr, Bool, true, false, ◌||◌, Option, none, some, List, arith, ◌==◌,
  eq_iff,
}
use blemees_agent.Session.{Session}
use blemees_agent.Table.Bounds.{IsValid}
use blemees_agent.Daemon.{Daemon, Connection, lookup_connection, take_from}
use blemees_agent.Daemon.Ownership.{owner_of, owner_in, owned_in, IsLinked, owned_in-disown}

some_injective : {a b : ℕ} → some a ≡ some b → a ≡ b
some_injective {a} e = ap (from_option a) e

-- Two connections never hold the same session.
pub IsLinked-unique :
    (d : Daemon) (c k : ℕ) (id : String)
    → IsLinked d
    → owned_in c id d.connections ≡ true
    → owned_in k id d.connections ≡ true
    → c ≡ k
IsLinked-unique d c k id w h i = some_injective (sym (w.linked c id h) ∙ w.linked k id i)

same_key : (id j : String) (P : String → Bool) → (id == j) ≡ true → P j ≡ true → P id ≡ true
same_key id j P same h = ap P ((eq_iff id j).0 same) ∙ h

apart : (c k : ℕ) → c ≡ k → nat_eq c k ≡ false → ⊥
apart c k e n = ground arith

-- The owner lets go of the session; no other session changes hands.
pub IsLinked-release :
    (c : ℕ) (id : String) (d e : Daemon)
    → IsLinked d
    → owned_in c id d.connections ≡ true
    → IsValid e.table
    → ((j : String) → (id == j) ≡ false → owner_of j e.table.sessions ≡ owner_of j d.table.sessions)
    → ((k : ℕ) (j : String)
        → owned_in k j e.connections ≡ true
        → (owned_in k j d.connections ≡ true) × ((nat_eq c k ≡ false) ⊎ ((id == j) ≡ false)))
    → IsLinked e
IsLinked-release c id d e w own valid owners holders = record {
  valid = valid;
  linked = λ k j h.
      let (held, alt) = holders k j h in
      elim (Bool-cases (id == j)) [
        | inr other ↦ owners j other ∙ w.linked k j held
        | inl same ↦ elim alt [
          | inr other ↦ absurd (let bad = sym same ∙ other in cc)
          | inl away ↦ absurd (
              apart c k
                (IsLinked-unique d c k id w own
                  (same_key id j (λ x. owned_in k x d.connections) same held))
                away)
        ]
      ];
}

-- The connection `c` gets the session; no other session changes hands.
pub IsLinked-take :
    (c : ℕ) (id : String) (d e : Daemon)
    → IsLinked d
    → IsValid e.table
    → owner_of id e.table.sessions ≡ some c
    → ((j : String) → (id == j) ≡ false → owner_of j e.table.sessions ≡ owner_of j d.table.sessions)
    → ((k : ℕ) (j : String)
        → owned_in k j e.connections ≡ true
        → ((c ≡ k) × ((id == j) ≡ true))
          ⊎ ((owned_in k j d.connections ≡ true) × ((id == j) ≡ true → c ≡ k)))
    → IsLinked e
IsLinked-take c id d e w valid owner owners holders = record {
  valid = valid;
  linked = λ k j h. elim (Bool-cases (id == j)) [
    | inr other ↦ elim (holders k j h) [
      | inl (_, same) ↦ absurd (let bad = sym same ∙ other in cc)
      | inr (held, _) ↦ owners j other ∙ w.linked k j held
    ]
    | inl same ↦
        let mine : c ≡ k = elim (holders k j h) [ inl (e, _) ↦ e | inr (_, f) ↦ f same ] in
        ap (λ x. owner_of x e.table.sessions) (sym ((eq_iff id j).0 same)) ∙ owner ∙ ap some mine
  ];
}

-- Who holds a session that is found is the one that it names.
pub linked-found :
    (d : Daemon) (id j : String) (k : ℕ) (s : Session)
    → IsLinked d
    → lookup id d.table.sessions ≡ some s
    → owned_in k j d.connections ≡ true
    → (id == j) ≡ true
    → s.connection_id ≡ some k
linked-found d id j k s w found held same =
    sym (ap owner_in found)
    ∙ ap (λ x. owner_of x d.table.sessions) ((eq_iff id j).0 same)
    ∙ w.linked k j held

-- Where nobody is found under a number, nobody holds a session under it.
unheld :
    (c : ℕ) (id : String) (ks : List Connection)
    → is_none (lookup_connection c ks) ≡ true
    → owned_in c id ks ≡ true
    → ⊥
unheld c id ks gone held = elim (Option-cases (lookup_connection c ks)) [
  | inl e ↦ let bad : false ≡ true = rw e at held in cc
  | inr (k, e) ↦ let bad : false ≡ true = rw e at gone in cc
]

or_cases : (a b : Bool) → (a || b) ≡ true → (a ≡ true) ⊎ (b ≡ true)
or_cases a b h = ground arith

pub table-take_from :
    (o : Option ℕ) (c : ℕ) (id : String) (d : Daemon) → (take_from o c id d).0.table ≡ d.table
unfolding take_from
table-take_from none c id d = refl
table-take_from (some prev) c id d = ground arith

-- Once the session is taken from its owner, only the connection that takes it can hold it.
pub take_from-alone :
    (o : Option ℕ) (c k : ℕ) (id j : String) (s : Session) (d : Daemon)
    → IsLinked d
    → lookup id d.table.sessions ≡ some s
    → s.connection_id ≡ o
    → owned_in k j (take_from o c id d).0.connections ≡ true
    → (owned_in k j d.connections ≡ true) × ((id == j) ≡ true → c ≡ k)
unfolding take_from
take_from-alone none c k id j s d w found named held =
    (held, λ same. absurd (let bad = sym named ∙ linked-found d id j k s w found held same in cc))
take_from-alone (some prev) c k id j s d w found named held =
    elim (Bool-cases (nat_eq prev c || is_none (lookup_connection prev d.connections))) [
      | inl stays ↦
          let held0 : owned_in k j d.connections ≡ true = rw stays at held in
          (
            held0,
            λ same.
                let named_k : prev ≡ k =
                  some_injective (sym named ∙ linked-found d id j k s w found held0 same) in
                elim (or_cases _ _ stays) [
                  | inl eq ↦ sym ((nat_eq_iff prev c).0 eq) ∙ named_k
                  | inr gone ↦ absurd (
                      unheld prev j d.connections gone
                        (ap (λ x. owned_in x j d.connections) named_k ∙ held0))
                ],
          )
      | inr told ↦
          let (held0, alt) = owned_in-disown prev k id j d.connections (rw told at held) in
          (
            held0,
            λ same.
                let named_k : prev ≡ k =
                  some_injective (sym named ∙ linked-found d id j k s w found held0 same) in
                elim alt [
                  | inl away ↦ absurd (apart prev k named_k away)
                  | inr other ↦ absurd (let bad = sym same ∙ other in cc)
                ],
          )
    ]
