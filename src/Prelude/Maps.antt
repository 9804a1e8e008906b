-- ===== src/Prelude/Maps.antt =====
-- Python's `dict` with string keys: its items in insertion order.
use Prim.Native.String.{String}
use mathlib.Core.Path.{◌≡◌, refl, sym, ap, ◌∙◌, subst}
use mathlib.Core.Logic.{inl, inr}
use mathlib.Core.Option.{Option, none, some}
use mathlib.Core.List.{List, [], ◌∷◌}
use native.Mathlib.Omega.{arith}
use text.Mathlib.Text.{◌==◌}
use text.Mathlib.TextEquality.{eq_iff}
use mathlib.Core.Bool.{false}
use blemees_agent.Prelude.Tests.{Bool-cases, or_else, if◌then◌else◌}

abbrev pub Dict {ℓ} : Type ℓ → Type ℓ
Dict V = List (String × V)

module _ {ℓ} {V : Type ℓ} where
  -- d.get(k)
  unfoldable pub lookup : String → Dict V → Option V
  lookup k [] = none
  lookup k ((j, v) ∷ d) = if j == k then some v else lookup k d

  -- d[k] = v: an old key keeps its place
  unfoldable pub insert : String → V → Dict V → Dict V
  insert k v [] = (k, v) ∷ []
  insert k v ((j, w) ∷ d) = if j == k then (j, v) ∷ d else (j, w) ∷ insert k v d

  -- d.pop(k, None)
  unfoldable pub erase : String → Dict V → Dict V
  erase k [] = []
  erase k ((j, v) ∷ d) = let rest = erase k d in if j == k then rest else (j, v) ∷ rest

  abbrev pub keys : Dict V → List String
  keys [] = []
  keys ((k, v) ∷ d) = k ∷ keys d

  abbrev pub values : Dict V → List V
  values [] = []
  values ((k, v) ∷ d) = v ∷ values d

  pub lookup-insert :
      (k j : String) (v : V) (d : Dict V)
      → lookup j (insert k v d) ≡ (if k == j then some v else lookup j d)
  unfolding lookup insert
  lookup-insert k j v [] = refl
  lookup-insert k j v ((i, w) ∷ d) =
      ground (arith, eq_iff k j, eq_iff i k, eq_iff i j, lookup-insert k j v d)

  pub lookup-erase :
      (k j : String) (d : Dict V) → lookup j (erase k d) ≡ (if k == j then none else lookup j d)
  unfolding lookup erase
  lookup-erase k j [] = ground arith
  lookup-erase k j ((i, w) ∷ d) =
      ground (arith, eq_iff k j, eq_iff i k, eq_iff i j, lookup-erase k j d)

  -- No key stands twice, as in any dict.
  abbrev pub Unique : Dict V → Type ℓ
  Unique [] = Unit
  Unique ((k, v) ∷ d) = (lookup k d ≡ none) × Unique d

  absent_insert :
      (k j : String) (v : V) (d : Dict V)
      → (j == k) ≡ false
      → lookup j d ≡ none
      → lookup j (insert k v d) ≡ none
  absent_insert k j v d other gone =
      let e : (k == j) ≡ false = ground (arith, eq_iff j k, eq_iff k j) in
      lookup-insert k j v d ∙ ap (λ b. if b then some v else lookup j d) e ∙ gone

  pub Unique-insert : (k : String) (v : V) (d : Dict V) → Unique d → Unique (insert k v d)
  unfolding insert lookup
  Unique-insert k v [] u = (refl, tt)
  Unique-insert k v ((j, w) ∷ d) u = elim (Bool-cases (j == k)) [
    | inl same ↦ rw same u
    | inr other ↦ rw other (absent_insert k j v d other u.0, Unique-insert k v d u.1)
  ]

  -- d.update(e)
  unfoldable pub update_with : Dict V → Dict V → Dict V
  update_with d [] = d
  update_with d ((k, v) ∷ e) = update_with (insert k v d) e

  -- A predicate of every value.
  abbrev pub Each {κ} : (V → Type κ) → Dict V → Type κ
  Each P [] = Unit
  Each P ((k, v) ∷ d) = P v × Each P d

  pub Each-insert {κ} :
      (P : V → Type κ) (k : String) (v : V) (d : Dict V) → P v → Each P d → Each P (insert k v d)
  unfolding insert
  Each-insert P k v [] h es = (h, tt)
  Each-insert P k v ((j, w) ∷ d) h es = elim (Bool-cases (j == k)) [
    | inl same ↦ rw same (h, es.1)
    | inr other ↦ rw other (es.0, Each-insert P k v d h es.1)
  ]

  pub Each-erase {κ} : (P : V → Type κ) (k : String) (d : Dict V) → Each P d → Each P (erase k d)
  unfolding erase
  Each-erase P k [] es = es
  Each-erase P k ((j, w) ∷ d) es = elim (Bool-cases (j == k)) [
    | inl same ↦ rw same (Each-erase P k d es.1)
    | inr other ↦ rw other (es.0, Each-erase P k d es.1)
  ]

  pub Each-lookup {κ} :
      (P : V → Type κ) (k : String) (v : V) (d : Dict V) → Each P d → lookup k d ≡ some v → P v
  unfolding lookup
  Each-lookup P k v [] es h = cc
  Each-lookup P k v ((j, w) ∷ d) es h = elim (Bool-cases (j == k)) [
    | inl same ↦ subst P (let e : some w ≡ some v = rw same at h in cc) es.0
    | inr other ↦ Each-lookup P k v d es.1 (rw other at h)
  ]

  pub lookup-update_with :
      (d e : Dict V) (j : String)
      → Unique e
      → lookup j (update_with d e) ≡ or_else (lookup j e) (lookup j d)
  unfolding update_with lookup
  lookup-update_with d [] j u = refl
  lookup-update_with d ((k, v) ∷ e) j u =
      lookup-update_with (insert k v d) e j u.1
      ∙ ap (or_else (lookup j e)) (lookup-insert k j v d)
      ∙ (elim (Bool-cases (k == j)) [
        | inl same ↦
            let gone : lookup j e ≡ none = ap (λ i. lookup i e) (sym ((eq_iff k j).0 same)) ∙ u.0 in
            rw (same, gone) refl
        | inr other ↦ rw other refl
      ])

  pub Unique-update_with : (d e : Dict V) → Unique d → Unique (update_with d e)
  unfolding update_with
  Unique-update_with d [] u = u
  Unique-update_with d ((k, v) ∷ e) u = Unique-update_with (insert k v d) e (Unique-insert k v d u)

pub ruleset dict_laws = (lookup-insert, lookup-erase)
