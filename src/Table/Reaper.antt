-- ===== src/Table/Reaper.antt =====
-- Which sessions `reap_idle` of blemees_agent/session.py removes.
use blemees_agent.Prelude.{
  ◌⊎◌, ◌+◌, ◌&&◌, Option, leb, leb→le, Option-cases, is_none, ◌≤◌, if◌then◌else◌, Bool-cases,
  Option-cases, from_option, any_of, Dict, lookup, lookup-erase, ℕ, String, ◌≡◌, refl, sym, ap, ◌∙◌,
  inl, inr, Bool, true, false, none, some, List, [], ◌∷◌, arith, ◌==◌, eq_iff,
}
use blemees_agent.Session.{Session}
use blemees_agent.Table.{SessionTable, remove, expired_ids, is_expired, remove_each, reap_idle}
use blemees_agent.Table.Bounds.{Distinct, Keyed, IsValid, remove-IsValid}

pub lookup-remove :
    (id j : String) (delete_file : Bool) (t : SessionTable)
    → lookup j (remove id delete_file t).0.sessions
      ≡ (if id == j then none else lookup j t.sessions)
unfolding remove
lookup-remove id j delete_file t = elim (Option-cases (lookup id t.sessions)) [
  | inl gone ↦
      rw (gone, remove)
        (elim (Bool-cases (id == j)) [
          | inl same ↦ rw same (ap (λ k. lookup k t.sessions) (sym ((eq_iff id j).0 same)) ∙ gone)
          | inr other ↦ rw other
        ])
  | inr (s, held) ↦ rw (held, remove) (lookup-erase id j t.sessions)
]

abbrev listed : String → List String → Bool
listed j ids = any_of (λ id. id == j) ids

lookup-remove_each :
    (ids : List String) (j : String) (t : SessionTable)
    → lookup j (remove_each ids t).0.sessions ≡ (if listed j ids then none else lookup j t.sessions)
unfolding remove_each
lookup-remove_each [] j t = refl
lookup-remove_each (id ∷ ids) j t =
    lookup-remove_each ids j (remove id false t).0 ∙ ground (arith, lookup-remove id j false t)

remove_each-IsValid :
    (ids : List String) (t : SessionTable) → IsValid t → IsValid (remove_each ids t).0
unfolding remove_each
remove_each-IsValid [] t w = w
remove_each-IsValid (id ∷ ids) t w =
    remove_each-IsValid ids (remove id false t).0 (remove-IsValid id false t w)

listed_skip :
    (b : Bool) (a j : String) (ids : List String)
    → (a == j) ≡ false
    → listed j (if b then a ∷ ids else ids) ≡ listed j ids
listed_skip true a j ids ne = rw ne
listed_skip false a j ids ne = refl

listed_hit :
    (b : Bool) (a j : String) (ids : List String)
    → (a == j) ≡ true
    → listed j ids ≡ false
    → listed j (if b then a ∷ ids else ids) ≡ b
listed_hit true a j ids e rest = rw e
listed_hit false a j ids e rest = rest

expired_unknown :
    (now timeout : ℕ) (j : String) (d : Dict Session)
    → Keyed d
    → lookup j d ≡ none
    → listed j (expired_ids now timeout d) ≡ false
unfolding expired_ids lookup
expired_unknown now timeout j [] k h = refl
expired_unknown now timeout j ((i, s) ∷ d) k h = elim (Bool-cases (i == j)) [
  | inl same ↦ let bad : some s ≡ none = rw same at h in cc
  | inr other ↦
      listed_skip _ s.session_id j _ (ap (λ x. x == j) k.0 ∙ other)
      ∙ expired_unknown now timeout j d k.1 (rw other at h)
]

expired_known :
    (now timeout : ℕ) (j : String) (s : Session) (d : Dict Session)
    → Keyed d
    → Distinct d
    → lookup j d ≡ some s
    → listed j (expired_ids now timeout d) ≡ is_expired now timeout s
unfolding expired_ids lookup
expired_known now timeout j s [] k u h = cc
expired_known now timeout j s ((i, v) ∷ d) k u h = elim (Bool-cases (i == j)) [
  | inl same ↦
      let e : v ≡ s = ap (from_option v) (rw same at h) in
      listed_hit _ v.session_id j _ (ap (λ x. x == j) k.0 ∙ same) (
        expired_unknown now timeout j d k.1
          (ap (λ x. lookup x d) (sym ((eq_iff i j).0 same)) ∙ u.0))
      ∙ ap (is_expired now timeout) e
  | inr other ↦
      listed_skip _ v.session_id j _ (ap (λ x. x == j) k.0 ∙ other)
      ∙ expired_known now timeout j s d k.1 u.1 (rw other at h)
]

reaped :
    (now : ℕ) (t : SessionTable) (id : String) (s : Session)
    → IsValid t
    → lookup id t.sessions ≡ some s
    → lookup id (reap_idle now t).0.sessions
      ≡ (if is_expired now t.idle_timeout_s s then none else some s)
unfolding reap_idle
reaped now t id s w held =
    let ids = expired_ids now t.idle_timeout_s t.sessions in
    lookup-remove_each ids id t
    ∙ ap (λ b. if b then none else lookup id t.sessions)
        (expired_known now t.idle_timeout_s id s t.sessions w.keyed w.distinct held)
    ∙ ap (λ o. if is_expired now t.idle_timeout_s s then none else o) held

pub reap_idle-IsValid : (now : ℕ) (t : SessionTable) → IsValid t → IsValid (reap_idle now t).0
unfolding reap_idle
reap_idle-IsValid now t w = remove_each-IsValid (expired_ids now t.idle_timeout_s t.sessions) t w

-- No connection owns the session, and it was detached at least `timeout` before `now`.
pub record IsOverdue (now timeout : ℕ) (s : Session) : Type 0 where
  pub unowned : s.connection_id ≡ none
  pub detached_at : ℕ
  pub detached : s.detached_at ≡ some detached_at
  pub late : timeout + detached_at ≤ now

abbrev expired_of : ℕ → ℕ → Option ℕ → Option ℕ → Bool
expired_of now timeout c d = is_none c && elim d [ none ↦ false | some at ↦ leb (timeout + at) now ]

not_late :
    {o : Option ℕ} (at at' timeout now : ℕ)
    → o ≡ some at
    → o ≡ some at'
    → leb (timeout + at) now ≡ false
    → timeout + at' ≤ now
    → ⊥
not_late at at' timeout now e same early late = grind arith

is_expired-cases :
    (now timeout : ℕ) (s : Session)
    → (IsOverdue now timeout s × (is_expired now timeout s ≡ true))
      ⊎ ((¬ IsOverdue now timeout s) × (is_expired now timeout s ≡ false))
is_expired-cases now timeout s = elim (Option-cases s.connection_id) [
  | inr (c, owned) ↦ inr (
    λ o. absurd (let e = o.unowned in cc),
    ap (λ k. expired_of now timeout k s.detached_at) owned,
  )
  | inl free ↦
      let e0 = ap (λ k. expired_of now timeout k s.detached_at) free in
      elim (Option-cases s.detached_at) [
        | inl never ↦ inr (
          λ o. absurd (let e = o.detached in cc),
          e0 ∙ ap (λ d. expired_of now timeout none d) never,
        )
        | inr (at, e) ↦
            let e1 = e0 ∙ ap (λ d. expired_of now timeout none d) e in
            elim (Bool-cases (leb (timeout + at) now)) [
              | inl late ↦ inl (
                record {
                  unowned = free;
                  detached_at = at;
                  detached = e;
                  late = leb→le (timeout + at) now late;
                },
                e1 ∙ late,
              )
              | inr early ↦ inr (
                λ o. absurd (
                    let same = o.detached in
                    let late = o.late in not_late at o.detached_at timeout now e same early late),
                e1 ∙ early,
              )
            ]
      ]
]

-- The reaper removes a session exactly where no connection owns it and it was detached at least
-- the idle timeout ago. Every other session stays as it is, and the table stays valid.
pub reap_idle-lookup :
    (now : ℕ) (t : SessionTable) (id : String) (s : Session)
    → IsValid t
    → lookup id t.sessions ≡ some s
    → ((IsOverdue now t.idle_timeout_s s × (lookup id (reap_idle now t).0.sessions ≡ none))
        ⊎ ((¬ IsOverdue now t.idle_timeout_s s)
            × (lookup id (reap_idle now t).0.sessions ≡ some s)))
      × IsValid (reap_idle now t).0
unfolding reap_idle
reap_idle-lookup now t id s w held = (
  elim (is_expired-cases now t.idle_timeout_s s) [
    | inl (due, e) ↦ inl (due, reaped now t id s w held ∙ ap (λ b. if b then none else some s) e)
    | inr (kept, e) ↦ inr (kept, reaped now t id s w held ∙ ap (λ b. if b then none else some s) e)
  ],
  remove_each-IsValid (expired_ids now t.idle_timeout_s t.sessions) t w,
)
