-- ===== src/Config/Precedence.antt =====
-- The precedence of the configuration's sources (blemees_agent/config.py).
use blemees_agent.Prelude.{
  if◌then◌else◌, Bool-cases, Option-cases, or_else, Dict, lookup, insert, lookup-insert, Unique,
  Unique-insert, update_with, lookup-update_with, Unique-update_with, String, ◌≡◌, refl, sym, ap,
  ◌∙◌, inl, inr, true, false, Option, none, some, List, [], ◌∷◌, ◌==◌, eq_iff, eq_refl,
}
use mathlib.Core.Path.{subst}
use blemees_agent.Prelude.Int.{ℤ}
use blemees_agent.Value.{Value, text}
use blemees_agent.Config.{
  mapping, overrides_from, env_overrides, cli_values, map_some, set_default, defaults, is_field,
  coerce, clean, merged, load,
}

Unique-overrides_from :
    (environ : String → Option String) (m : List (String × String)) (d : Dict Value)
    → Unique d
    → Unique (overrides_from environ m d)
unfolding overrides_from
Unique-overrides_from environ [] d u = u
Unique-overrides_from environ ((name, field) ∷ m) d u = elim (Option-cases (environ name)) [
  | inl gone ↦ rw gone (Unique-overrides_from environ m d u)
  | inr (v, e) ↦
      rw e (
        Unique-overrides_from environ m (insert field (text v) d)
          (Unique-insert field (text v) d u))
]

Unique-env_overrides : (environ : String → Option String) → Unique (env_overrides environ)
unfolding env_overrides
Unique-env_overrides environ = Unique-overrides_from environ mapping [] tt

or_else-none : (o : Option Value) → or_else o none ≡ o
or_else-none none = refl
or_else-none (some v) = refl

lookup-set_default :
    (k j : String) (v : Value) (d : Dict Value)
    → lookup j (set_default k v d) ≡ or_else (lookup j d) (if k == j then some v else none)
lookup-set_default k j v d = elim (Option-cases (lookup k d)) [
  | inl gone ↦ rw gone (
      lookup-insert k j v d ∙ (elim (Bool-cases (k == j)) [
        | inl same ↦
            let e : lookup j d ≡ none = ap (λ i. lookup i d) (sym ((eq_iff k j).0 same)) ∙ gone in
            rw (same, e) refl
        | inr other ↦ rw other (sym (or_else-none (lookup j d)))
      ]))
  | inr (w, e) ↦ rw e (elim (Bool-cases (k == j)) [
    | inl same ↦
        let e2 : lookup j d ≡ some w = ap (λ i. lookup i d) (sym ((eq_iff k j).0 same)) ∙ e in
        rw (same, e2) refl
    | inr other ↦ rw other (sym (or_else-none (lookup j d)))
  ])
]

Unique-set_default :
    (k : String) (v : Value) (d : Dict Value) → Unique d → Unique (set_default k v d)
Unique-set_default k v d u = elim (Option-cases (lookup k d)) [
  | inl gone ↦ rw gone (Unique-insert k v d u)
  | inr (w, e) ↦ rw e u
]

Unique-merged :
    (file : Dict Value) (environ : String → Option String) (args : Dict (Option Value))
    (socket state : String)
    → Unique (merged file environ args socket state)
unfolding merged
Unique-merged file environ args socket state =
    let d1 = update_with [] file in
    let d2 = update_with d1 (env_overrides environ) in
    let d3 = update_with d2 (cli_values args) in
    Unique-set_default "state_dir" (text state) (set_default "socket_path" (text socket) d3) (
      Unique-set_default "socket_path" (text socket) d3 (
        Unique-update_with d2 (cli_values args)
          (Unique-update_with d1 (env_overrides environ) (Unique-update_with [] file tt))))

-- Where a field's value comes from: the command line, the environment, the file, a default path.
abbrev pub source_of :
    String
    → Dict Value
    → (String → Option String)
    → Dict (Option Value)
    → String
    → String
    → Option Value
source_of k file environ args socket state =
    or_else
      (or_else
        (or_else (lookup k (cli_values args))
          (or_else (lookup k (env_overrides environ)) (lookup k file)))
        (if "socket_path" == k then some (text socket) else none))
      (if "state_dir" == k then some (text state) else none)

lookup-merged :
    (k : String) (file : Dict Value) (environ : String → Option String) (args : Dict (Option Value))
    (socket state : String)
    → Unique file
    → Unique (cli_values args)
    → lookup k (merged file environ args socket state) ≡ source_of k file environ args socket state
unfolding merged lookup
lookup-merged k file environ args socket state uf ua =
    let d1 = update_with [] file in
    let d2 = update_with d1 (env_overrides environ) in
    let d3 = update_with d2 (cli_values args) in
    lookup-set_default "state_dir" k (text state) (set_default "socket_path" (text socket) d3)
    ∙ ap (λ o. or_else o (if "state_dir" == k then some (text state) else none))
        (lookup-set_default "socket_path" k (text socket) d3
          ∙ ap (λ o. or_else o (if "socket_path" == k then some (text socket) else none))
              (lookup-update_with d2 (cli_values args) k ua
                ∙ ap (or_else (lookup k (cli_values args))) (
                    lookup-update_with d1 (env_overrides environ) k (Unique-env_overrides environ)
                    ∙ ap (or_else (lookup k (env_overrides environ)))
                        (lookup-update_with [] file k uf ∙ or_else-none (lookup k file)))))

lookup_other :
    (j k : String) (v : Value) (d : Dict Value)
    → (j == k) ≡ false
    → lookup k ((j, v) ∷ d) ≡ lookup k d
unfolding lookup
lookup_other j k v d differ = rw differ refl

lookup_same :
    (j k : String) (v : Value) (d : Dict Value) → (j == k) ≡ true → lookup k ((j, v) ∷ d) ≡ some v
unfolding lookup
lookup_same j k v d same = rw same refl

module _ (to_int : Value → Option ℤ) where
  -- A field's value as an integer where the field is one.
  abbrev pub coerced : String → Option Value → Option (Option Value)
  coerced k none = some none
  coerced k (some v) = map_some some (coerce to_int k v)

  -- A field of the merged dict is coerced, and the rest is cleaned.
  clean_field :
      (j : String) (v : Value) (d c : Dict Value)
      → is_field j ≡ true
      → clean to_int ((j, v) ∷ d) ≡ some c
      → (w : Value) × (c2 : Dict Value) × (coerce to_int j v ≡ some w)
        × (clean to_int d ≡ some c2)
        × ((j, w) ∷ c2 ≡ c)
  unfolding clean
  clean_field j v d c known e = elim (Option-cases (coerce to_int j v)) [
    | inl bad ↦ let q : none ≡ some c = rw (known, bad) at e in cc
    | inr (w, ew) ↦ elim (Option-cases (clean to_int d)) [
      | inl bad ↦ let q : none ≡ some c = rw (known, ew, bad) at e in cc
      | inr (c2, ec) ↦
          let q : some ((j, w) ∷ c2) ≡ some c = rw (known, ew, ec) at e in (w, c2, ew, ec, cc)
    ]
  ]

  clean_other :
      (j : String) (v : Value) (d : Dict Value)
      → is_field j ≡ false
      → clean to_int ((j, v) ∷ d) ≡ clean to_int d
  unfolding clean
  clean_other j v d other = rw other refl

  clean_nil : (c : Dict Value) → clean to_int [] ≡ some c → [] ≡ c
  unfolding clean
  clean_nil c e = cc

  lookup-clean_nil :
      (k : String) (c : Dict Value)
      → clean to_int [] ≡ some c
      → coerced k (lookup k []) ≡ some (lookup k c)
  unfolding lookup
  lookup-clean_nil k c e = ap (λ d. some (lookup k d)) (clean_nil c e)

  lookup-clean :
      (k : String) (d c : Dict Value)
      → is_field k ≡ true
      → clean to_int d ≡ some c
      → coerced k (lookup k d) ≡ some (lookup k c)
  lookup-clean k [] c f e = lookup-clean_nil k c e
  lookup-clean k ((j, v) ∷ d) c f e = elim (Bool-cases (is_field j)) [
    | inr other ↦
        let differ : (j == k) ≡ false = elim (Bool-cases (j == k)) [
          | inl same ↦
              let q : is_field k ≡ false =
                subst (λ i. is_field i ≡ false) ((eq_iff j k).0 same) other in
              cc
          | inr no_eq ↦ no_eq
        ] in
        ap (coerced k) (lookup_other j k v d differ)
        ∙ lookup-clean k d c f (sym (clean_other j v d other) ∙ e)
    | inl known ↦
        let r = clean_field j v d c known e in
        let rest = lookup-clean k d r.1 f r.3 in
        elim (Bool-cases (j == k)) [
          | inl same ↦
              ap (coerced k) (lookup_same j k v d same)
              ∙ ap (λ i. map_some some (coerce to_int i v)) (sym ((eq_iff j k).0 same))
              ∙ ap (map_some some) r.2
              ∙ ap some (sym (lookup_same j k r.0 r.1 same) ∙ ap (lookup k) r.4)
          | inr differ ↦
              ap (coerced k) (lookup_other j k v d differ)
              ∙ rest
              ∙ ap some (sym (lookup_other j k r.0 r.1 differ) ∙ ap (lookup k) r.4)
        ]
  ]

  Unique-clean : (d c : Dict Value) → Unique d → clean to_int d ≡ some c → Unique c
  Unique-clean [] c u e = subst Unique (clean_nil c e) tt
  Unique-clean ((j, v) ∷ d) c u e = elim (Bool-cases (is_field j)) [
    | inr other ↦ Unique-clean d c u.1 (sym (clean_other j v d other) ∙ e)
    | inl known ↦
        let r = clean_field j v d c known e in
        let q = lookup-clean j d r.1 known r.3 in
        let gone : some none ≡ some (lookup j r.1) = ap (coerced j) (sym u.0) ∙ q in
        subst Unique r.4 (cc, Unique-clean d r.1 u.1 r.3)
  ]

  -- Every field's value of a dict converts.
  abbrev pub Converts : (String → Option Value) → Type 0
  Converts value_of =
      (k : String) (v : Value)
      → is_field k ≡ true
      → value_of k ≡ some v
      → (w : Value) × (coerce to_int k v ≡ some w)

  Converts-tail :
      (j : String) (v : Value) (d : Dict Value)
      → Unique ((j, v) ∷ d)
      → Converts (λ k. lookup k ((j, v) ∷ d))
      → Converts (λ k. lookup k d)
  Converts-tail j v d u h k w f e = elim (Bool-cases (j == k)) [
    | inl same ↦
        let q : lookup k d ≡ none = ap (λ i. lookup i d) (sym ((eq_iff j k).0 same)) ∙ u.0 in
        let r : none ≡ some w = sym q ∙ e in cc
    | inr differ ↦ h k w f (lookup_other j k v d differ ∙ e)
  ]

  clean-total :
      (d : Dict Value)
      → Unique d
      → Converts (λ k. lookup k d)
      → (c : Dict Value) × (clean to_int d ≡ some c)
  unfolding clean
  clean-total [] u h = ([], refl)
  clean-total ((j, v) ∷ d) u h =
      let rest = clean-total d u.1 (Converts-tail j v d u h) in
      elim (Bool-cases (is_field j)) [
        | inr other ↦ (rest.0, clean_other j v d other ∙ rest.1)
        | inl known ↦
            let r = h j v known (lookup_same j j v d (eq_refl j)) in
            ((j, r.0) ∷ rest.0, rw (known, r.1, rest.1) refl)
      ]

  -- The command line and the file are dicts without a key twice, and `int` converts the value of
  -- every integer field that is given. Then `load` returns a configuration in which each field has
  -- the value of the command line, else of the environment, else of the file, else (the socket's
  -- path and the state directory) the default path, converted by `int` where the field is an
  -- integer, and the default of the class where none of them gives one.
  pub load-precedence :
      (file : Dict Value) (environ : String → Option String) (args : Dict (Option Value))
      (socket state : String)
      → Unique file
      → Unique (cli_values args)
      → Converts (λ k. source_of k file environ args socket state)
      → (cfg : Dict Value) × (load to_int file environ args socket state ≡ some cfg)
        × ((k : String)
            → is_field k ≡ true
            → (given : Option Value) × (coerced k (source_of k file environ args socket state)
                ≡ some given)
              × (lookup k cfg ≡ or_else given (lookup k defaults)))
  unfolding load
  load-precedence file environ args socket state uf ua h =
      let m = merged file environ args socket state in
      let um = Unique-merged file environ args socket state in
      let look = λ (k : String). lookup-merged k file environ args socket state uf ua in
      let r = clean-total m um (λ k v f e. h k v f (sym (look k) ∙ e)) in
      (
        update_with defaults r.0,
        ap (map_some (update_with defaults)) r.1,
        λ k f. (
          lookup k r.0,
          ap (coerced k) (sym (look k)) ∙ lookup-clean k m r.0 f r.1,
          lookup-update_with defaults r.0 k (Unique-clean m r.0 um r.1),
        ),
      )
