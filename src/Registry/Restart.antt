-- ===== src/Registry/Restart.antt =====
-- What a restart of the daemon reads back (blemees_agent/registry.py).
use blemees_agent.Prelude.{
  if◌then◌else◌, Bool-cases, or_else, Dict, lookup, insert, values, lookup-insert, String, ◌≡◌,
  refl, sym, ap, ◌∙◌, inl, inr, true, ◌&&◌, Option, none, some, List, [], ◌∷◌, map, ◌==◌, eq_iff,
}
use blemees_agent.Value.{Value, object, text, entries, items_of}
use blemees_agent.Protocol.{get}
use blemees_agent.Registry.{
  Registry, to_items, to_fields, adopt_profile, adopt_each, list_at, load, payload, save,
}

-- Each profile's spec names it, and no name stands twice.
abbrev pub Named : Dict (Dict Value) → Type 0
Named [] = Unit
Named ((k, spec) ∷ d) = (get "name" spec ≡ some (text k)) × (lookup k d ≡ none) × Named d

-- A registry before `load`, whose file is that of another.
abbrev pub restarted : Registry → Registry
restarted r = record {
  persistent = true;
  writable = true;
  file = r.file;
  records = [];
  profiles = [];
}

pub entries-to_fields : (d : Dict Value) → entries (to_fields d) ≡ d
entries-to_fields [] = refl
entries-to_fields ((k, v) ∷ d) = ap (λ r. (k, v) ∷ r) (entries-to_fields d)

items_of-to_items : (vs : List Value) → items_of (to_items vs) ≡ vs
items_of-to_items [] = refl
items_of-to_items (v ∷ vs) = ap (λ r. v ∷ r) (items_of-to_items vs)

adopt_profile-object :
    (k : String) (spec : Dict Value) (d : Dict (Dict Value))
    → get "name" spec ≡ some (text k)
    → adopt_profile d (object (to_fields spec)) ≡ insert k spec d
unfolding adopt_profile
adopt_profile-object k spec d h =
    let e : get "name" (entries (to_fields spec)) ≡ some (text k) =
      ap (get "name") (entries-to_fields spec) ∙ h in
    rw (e, adopt_profile) (ap (λ s. insert k s d) (entries-to_fields spec))

lookup-adopted :
    (d acc : Dict (Dict Value)) (j : String)
    → Named d
    → lookup j (adopt_each adopt_profile (map (λ s. object (to_fields s)) (values d)) acc)
      ≡ or_else (lookup j d) (lookup j acc)
unfolding lookup
lookup-adopted [] acc j h = refl
lookup-adopted ((k, spec) ∷ d) acc j h =
    ap (λ x. lookup j (adopt_each adopt_profile (map (λ s. object (to_fields s)) (values d)) x))
      (adopt_profile-object k spec acc h.0)
    ∙ lookup-adopted d (insert k spec acc) j h.2
    ∙ ap (or_else (lookup j d)) (lookup-insert k j spec acc)
    ∙ (elim (Bool-cases (k == j)) [
      | inl same ↦
          let gone : lookup j d ≡ none = ap (λ i. lookup i d) (sym ((eq_iff k j).0 same)) ∙ h.1 in
          rw (same, gone) refl
      | inr other ↦ rw other refl
    ])

list_at-payload :
    (r : Registry)
    → list_at "profiles" (payload r) ≡ map (λ s. object (to_fields s)) (values r.profiles)
unfolding list_at payload get lookup
list_at-payload r = items_of-to_items _

or_else-none : (o : Option (Dict Value)) → or_else o none ≡ o
or_else-none none = refl
or_else-none (some v) = refl

saved :
    (r : Registry)
    → r.persistent ≡ true
    → r.writable ≡ true
    → save r ≡ record r { file = some (payload r) }
unfolding save
saved r kept takes =
    ap (λ b. if b && r.writable then record r { file = some (payload r) } else r) kept
    ∙ ap (λ b. if b then record r { file = some (payload r) } else r) takes

-- A registry that saves to its file and starts again has every profile as it was: each name
-- finds its spec, and no other name finds one. Each spec must hold its own name, and the write
-- must succeed.
pub load-save :
    (r : Registry) (j : String)
    → Named r.profiles
    → r.persistent ≡ true
    → r.writable ≡ true
    → lookup j (load (restarted (save r))).profiles ≡ lookup j r.profiles
unfolding load lookup
load-save r j h kept takes =
    ap (λ q. lookup j (load (restarted q)).profiles) (saved r kept takes)
    ∙ ap (λ l. lookup j (adopt_each adopt_profile l [])) (list_at-payload r)
    ∙ lookup-adopted r.profiles [] j h
    ∙ or_else-none (lookup j r.profiles)
