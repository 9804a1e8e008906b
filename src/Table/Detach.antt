-- ===== src/Table/Detach.antt =====
-- What happens to the sessions of a connection that closes (blemees_agent/session.py).
pub mod Reattach
use blemees_agent.Prelude.{
  nat_eq, if◌then◌else◌, Bool-cases, Dict, lookup, lookup-insert, ℕ, ◌-◌, String, ◌≡◌, refl, sym,
  ap, ◌∙◌, inl, inr, true, false, Option, none, some, [], ◌∷◌, arith, ◌==◌, eq_iff, eq_refl,
}
use blemees_agent.Session.{Session, Backend}
use blemees_agent.Session.Attach.{detach_writer, mark_finishing}
use blemees_agent.Table.{
  SessionTable, TableEffect, close_backend, detach_backend, detach_session, detach_soft, owned_by,
  detach_each, detach_all_for_connection, active_turn,
}
use blemees_agent.Table.Bounds.{Distinct, Keyed, IsValid}

-- A session that lost its connection is unhooked. A turn in flight goes on, marked as the last
-- one; any other backend that runs is closed.
pub detach_session_lem :
    (now : ℕ) (s : Session)
    → ((detach_session now s).0.connection_id ≡ none)
      × ((detach_session now s).0.writer ≡ none)
      × ((detach_session now s).0.detached_at ≡ some now)
      × (active_turn s ≡ true
          → ((detach_session now s).0.finishing ≡ true)
            × ((detach_session now s).0.backend ≡ s.backend)
            × ((detach_session now s).1 ≡ []))
      × (active_turn s ≡ false → (detach_session now s).0.backend ≡ none)
unfolding detach_session detach_backend detach_writer mark_finishing
detach_session_lem now s =
    (ground arith, ground arith, ground arith, λ h. ground arith, λ h. ground arith)

pub session_id-detach_session :
    (now : ℕ) (s : Session) → (detach_session now s).0.session_id ≡ s.session_id
unfolding detach_session detach_backend detach_writer mark_finishing
session_id-detach_session now s = ground arith

lookup-detach_soft :
    (now : ℕ) (id j : String) (s : Session) (t : SessionTable)
    → lookup id t.sessions ≡ some s
    → lookup j (detach_soft now id t).0.sessions
      ≡ (if id == j then some (detach_session now s).0 else lookup j t.sessions)
unfolding detach_soft
lookup-detach_soft now id j s t held =
    rw (held, detach_soft) (lookup-insert id j (detach_session now s).0 t.sessions)

abbrev expected : ℕ → ℕ → Option Session → Option Session → Option Session
expected now c none base = base
expected now c (some s) base = if owned_by c s then some (detach_session now s).0 else base

-- The table holds what the copy of its entries held.
abbrev Agrees : Dict Session → SessionTable → Type 0
Agrees d t = (j : String) (s : Session) → lookup j d ≡ some s → lookup j t.sessions ≡ some s

abbrev step_table : ℕ → ℕ → Session → SessionTable → SessionTable
step_table now c s t = if owned_by c s then (detach_soft now s.session_id t).0 else t

detach_each-cons :
    (now c : ℕ) (i : String) (s : Session) (d : Dict Session) (t : SessionTable)
    → (detach_each now c ((i, s) ∷ d) t).0 ≡ (detach_each now c d (step_table now c s t)).0
unfolding detach_each
detach_each-cons now c i s d t = elim (Bool-cases (owned_by c s)) [
  | inl owned ↦ rw owned
  | inr free ↦ rw free
]

-- One round changes the entry of its own session alone.
lookup-step_table :
    (now c : ℕ) (j : String) (s : Session) (t : SessionTable)
    → lookup s.session_id t.sessions ≡ some s
    → lookup j (step_table now c s t).sessions ≡ (
        if s.session_id == j
        then (if owned_by c s then some (detach_session now s).0 else some s)
        else lookup j t.sessions)
lookup-step_table now c j s t held = elim (Bool-cases (owned_by c s)) [
  | inl owned ↦ rw owned (lookup-detach_soft now s.session_id j s t held)
  | inr free ↦ rw free (ground (arith, eq_iff s.session_id j))
]

held_step :
    (i : String) (s : Session) (d : Dict Session) (t : SessionTable)
    → s.session_id ≡ i
    → Agrees ((i, s) ∷ d) t
    → lookup s.session_id t.sessions ≡ some s
unfolding lookup
held_step i s d t k agrees = ap (λ x. lookup x t.sessions) k ∙ agrees i s (rw (eq_refl i))

absent_elsewhere :
    (i j : String) (v : Session) (d : Dict Session)
    → lookup i d ≡ none
    → lookup j d ≡ some v
    → (i == j) ≡ false
absent_elsewhere i j v d gone held = ground (arith, eq_iff i j)

Agrees-step :
    (now c : ℕ) (i : String) (s : Session) (d : Dict Session) (t : SessionTable)
    → s.session_id ≡ i
    → lookup i d ≡ none
    → Agrees ((i, s) ∷ d) t
    → Agrees d (step_table now c s t)
unfolding lookup
Agrees-step now c i s d t k gone agrees j v held =
    let other = absent_elsewhere i j v d gone held in
    lookup-step_table now c j s t (held_step i s d t k agrees)
    ∙ ap
        (λ b.
          if b
          then (if owned_by c s then some (detach_session now s).0 else some s)
          else lookup j t.sessions)
        (ap (λ x. x == j) k ∙ other)
    ∙ agrees j v (rw other held)

-- At its own key the round has done what is expected; at another it has done nothing.
step_same :
    (now c : ℕ) (i j : String) (s : Session) (d : Dict Session) (t : SessionTable)
    → s.session_id ≡ i
    → lookup i d ≡ none
    → Agrees ((i, s) ∷ d) t
    → (i == j) ≡ true
    → expected now c (lookup j d) (lookup j (step_table now c s t).sessions)
      ≡ expected now c (some s) (lookup j t.sessions)
unfolding lookup
step_same now c i j s d t k gone agrees same =
    let step = lookup-step_table now c j s t (held_step i s d t k agrees) in
    let at_j : lookup j t.sessions ≡ some s = agrees j s (rw same) in
    let gone_j : lookup j d ≡ none = ap (λ x. lookup x d) (sym ((eq_iff i j).0 same)) ∙ gone in
    ap (λ o. expected now c o (lookup j (step_table now c s t).sessions)) gone_j
    ∙ step
    ∙ ap
        (λ b.
          if b
          then (if owned_by c s then some (detach_session now s).0 else some s)
          else lookup j t.sessions)
        (ap (λ x. x == j) k ∙ same)
    ∙ ap (λ o. if owned_by c s then some (detach_session now s).0 else o) (sym at_j)

step_other :
    (now c : ℕ) (i j : String) (s : Session) (d : Dict Session) (t : SessionTable)
    → s.session_id ≡ i
    → Agrees ((i, s) ∷ d) t
    → (i == j) ≡ false
    → lookup j (step_table now c s t).sessions ≡ lookup j t.sessions
step_other now c i j s d t k agrees other =
    lookup-step_table now c j s t (held_step i s d t k agrees)
    ∙ ap
        (λ b.
          if b
          then (if owned_by c s then some (detach_session now s).0 else some s)
          else lookup j t.sessions)
        (ap (λ x. x == j) k ∙ other)

lookup-detach_each :
    (now c : ℕ) (j : String) (d : Dict Session) (t : SessionTable)
    → Keyed d
    → Distinct d
    → Agrees d t
    → lookup j (detach_each now c d t).0.sessions
      ≡ expected now c (lookup j d) (lookup j t.sessions)
unfolding detach_each lookup
lookup-detach_each now c j [] t k u agrees = refl
lookup-detach_each now c j ((i, s) ∷ d) t k u agrees =
    ap (λ x. lookup j x.sessions) (detach_each-cons now c i s d t)
    ∙ lookup-detach_each now c j d (step_table now c s t) k.1 u.1
        (Agrees-step now c i s d t k.0 u.0 agrees)
    ∙ elim (Bool-cases (i == j)) [
      | inl same ↦ rw same (step_same now c i j s d t k.0 u.0 agrees same)
      | inr other ↦
          rw other (ap (expected now c (lookup j d)) (step_other now c i j s d t k.0 agrees other))
    ]

owned_by-detached :
    (now c : ℕ) (s : Session)
    → owned_by c (if owned_by c s then (detach_session now s).0 else s) ≡ false
owned_by-detached now c s = elim (Bool-cases (owned_by c s)) [
  | inl owned ↦
      rw owned
        (ap (λ o. elim o [ none ↦ false | some d ↦ nat_eq d c ]) (detach_session_lem now s).0)
  | inr free ↦ rw (free, free)
]

-- When a connection closes, each session that it owned is detached and every other session stays
-- as it is: no session of the table belongs to the connection any more.
pub lookup-detach_all :
    (now c : ℕ) (t : SessionTable) (id : String) (s : Session)
    → IsValid t
    → lookup id t.sessions ≡ some s
    → (lookup id (detach_all_for_connection now c t).0.sessions
        ≡ some (if owned_by c s then (detach_session now s).0 else s))
      × (owned_by c (if owned_by c s then (detach_session now s).0 else s) ≡ false)
unfolding detach_all_for_connection
lookup-detach_all now c t id s w held = (
  lookup-detach_each now c id t.sessions t w.keyed w.distinct (λ j v h. h)
      ∙ ap (λ o. expected now c o o) held
      ∙ (elim (Bool-cases (owned_by c s)) [ inl owned ↦ rw owned | inr free ↦ rw free ]),
  owned_by-detached now c s,
)
