-- ===== src/Supervisor/Crud/Keeps.antt =====
-- What the operations on profiles leave as it is (blemees_agent/supervisor.py).
use blemees_agent.Prelude.{
  Bool-cases, Option-cases, is_some, is_none, Dict, lookup, values, lookup-insert, lookup-erase, ℕ,
  String, ◌≡◌, refl, ap, ◌∙◌, inl, inr, Bool, true, false, not, Option, none, some, List, [], ◌∷◌,
  ◌==◌, eq_iff,
}
use mathlib.Core.Path.{subst}
use blemees_agent.Value.{Value, as_text}
use blemees_agent.Errors.{
  ok_injective, ok, guard, Failure, >>=-eq-ok, profile_exists_error, profile_unknown_error,
  profile_protected_error,
}
use blemees_agent.Protocol.{get}
use blemees_agent.Notify.{member}
use blemees_agent.Registry.{Registry, all_profiles}
use blemees_agent.Supervisor.{Supervisor, at_key, stop, stop_agent, stop_agents, get_profile}
use blemees_agent.Supervisor.Profiles.{Agent, Profile, profile_from_spec}
use blemees_agent.Supervisor.Crud.{
  set_profile, persist_profile, checked_profile, create_profile, require_mutable, update_profile,
  forget_profile, delete_profile, load_each, load_from, load_persisted,
}

-- The profiles' table, its managed names and the registry are left as they are.
pub record SameProfiles (s t : Supervisor) : Type 0 where
  pub profiles : t.profiles ≡ s.profiles
  pub static_names : t.static_names ≡ s.static_names
  pub registry : t.registry ≡ s.registry

stop_agent-same : (key : String × String) (s : Supervisor) → SameProfiles s (stop_agent key s).1
unfolding stop_agent
stop_agent-same key s = elim (Option-cases (at_key key s.processes)) [
  | inl e ↦ rw (e, stop_agent) (record { profiles = refl; static_names = refl; registry = refl })
  | inr (p, e) ↦
      rw (e, stop_agent) (record { profiles = refl; static_names = refl; registry = refl })
]

pub stop_agents-same :
    (profile : String) (as' : List Agent) (s : Supervisor)
    → SameProfiles s (stop_agents profile as' s).1
unfolding stop_agents
stop_agents-same profile [] s = record { profiles = refl; static_names = refl; registry = refl }
stop_agents-same profile (a ∷ as') s =
    let h = stop_agent-same (profile, a.name) s in
    let k = stop_agents-same profile as' (stop_agent (profile, a.name) s).1 in
    record {
      profiles = k.profiles ∙ h.profiles;
      static_names = k.static_names ∙ h.static_names;
      registry = k.registry ∙ h.registry;
    }

pub stop-same :
    (name : Option String) (s : Supervisor) (r : ℕ × Supervisor)
    → stop name s ≡ ok r
    → SameProfiles s r.1
unfolding stop
stop-same name s r h =
    let (p, _, e) =
      >>=-eq-ok (get_profile name s) (λ p. ok (stop_agents p.name (values p.agents) s)) h in
    subst (λ q. SameProfiles s q.1) (ok_injective (stop_agents p.name (values p.agents) s) r e)
      (stop_agents-same p.name (values p.agents) s)

-- A managed profile's entry is the same in both.
pub record KeepsManaged (s t : Supervisor) : Type 0 where
  pub static_names : t.static_names ≡ s.static_names
  pub entry :
      (name : String)
      → member name s.static_names ≡ true
      → lookup name t.profiles ≡ lookup name s.profiles

pub keeps_refl : (s : Supervisor) → KeepsManaged s s
keeps_refl s = record { static_names = refl; entry = λ name m. refl }

pub keeps_trans : {s t u : Supervisor} → KeepsManaged s t → KeepsManaged t u → KeepsManaged s u
keeps_trans h k = record {
  static_names = k.static_names ∙ h.static_names;
  entry = λ name m. k.entry name (ap (member name) h.static_names ∙ m) ∙ h.entry name m;
}

-- Another profile is put in, or taken out.
keeps_insert :
    (name : String) (p : Profile) (s : Supervisor)
    → ((n : String) → member n s.static_names ≡ true → (name == n) ≡ false)
    → KeepsManaged s (set_profile name p s)
keeps_insert name p s other = record {
  static_names = refl;
  entry = λ n m. rw lookup-insert (rw (other n m) refl);
}

not_static :
    (name : String) (names : List String)
    → member name names ≡ false
    → (n : String) → member n names ≡ true
    → (name == n) ≡ false
not_static name names h n m = elim (Bool-cases (name == n)) [
  | inr other ↦ other
  | inl same ↦ absurd (let e = ap (λ k. member k names) ((eq_iff name n).0 same) in cc)
]

-- Each managed name has its profile.
abbrev pub AllManaged : Supervisor → Type 0
AllManaged s =
    (name : String) → member name s.static_names ≡ true → is_some (lookup name s.profiles) ≡ true

not_new :
    (name : String) (s : Supervisor)
    → AllManaged s
    → is_none (lookup name s.profiles) ≡ true
    → (n : String) → member n s.static_names ≡ true
    → (name == n) ≡ false
not_new name s all h n m = elim (Bool-cases (name == n)) [
  | inr other ↦ other
  | inl same ↦ absurd (
      let e = ap (λ k. is_some (lookup k s.profiles)) ((eq_iff name n).0 same) in
      elim (Option-cases (lookup name s.profiles)) [
        | inl absent ↦
            let f : is_some (lookup name s.profiles) ≡ false = ap is_some absent in
            let g = all n m in cc
        | inr (p, there) ↦ let f : is_none (lookup name s.profiles) ≡ false = ap is_none there in cc
      ])
]

guard-true : (b : Bool) (e : Failure) (u : Unit {0}) → guard b e ≡ ok u → b ≡ true
guard-true true e u h = refl
guard-true false e u h = cc

not-true : (b : Bool) → not b ≡ true → b ≡ false
not-true true h = cc
not-true false h = refl

mutable-not_static :
    (name : String) (s : Supervisor) (u : Unit {0})
    → require_mutable name s ≡ ok u
    → member name s.static_names ≡ false
unfolding require_mutable
mutable-not_static name s u h =
    let (v, _, e) =
      >>=-eq-ok (guard (is_some (lookup name s.profiles)) (profile_unknown_error name))
        (λ _. guard (not (member name s.static_names)) (profile_protected_error name)) h in
    not-true (member name s.static_names) (guard-true _ (profile_protected_error name) u e)

-- A profile that is not managed is put in, and its spec kept.
keeps_set :
    (name : String) (spec : Dict Value) (p : Profile) (s t : Supervisor)
    → SameProfiles s t
    → ((n : String) → member n s.static_names ≡ true → (name == n) ≡ false)
    → KeepsManaged s (persist_profile name spec (set_profile name p t))
unfolding persist_profile
keeps_set name spec p s t same other = record {
  static_names = same.static_names;
  entry = λ n m. rw lookup-insert (rw (other n m) (ap (lookup n) same.profiles));
}

keeps_forget :
    (name : String) (s t : Supervisor)
    → SameProfiles s t
    → ((n : String) → member n s.static_names ≡ true → (name == n) ≡ false)
    → KeepsManaged s (forget_profile name t)
keeps_forget name s t same other = record {
  static_names = same.static_names;
  entry = λ n m. rw lookup-erase (rw (other n m) (ap (lookup n) same.profiles));
}

same_refl : (s : Supervisor) → SameProfiles s s
same_refl s = record { profiles = refl; static_names = refl; registry = refl }

pub keeps_ok : {s t u : Supervisor} → ok t ≡ ok u → KeepsManaged s t → KeepsManaged s u
keeps_ok {s} {t} {u} e h = subst (λ q. KeepsManaged s q) (ok_injective t u e) h

pub create-keeps :
    (which : String → Bool) (name : String) (spec : Dict Value) (s t : Supervisor)
    → AllManaged s
    → create_profile which name spec s ≡ ok t
    → KeepsManaged s t
unfolding create_profile
create-keeps which name spec s t all h =
    let (u, g, h1) =
      >>=-eq-ok (guard (is_none (lookup name s.profiles)) (profile_exists_error name)) _ h in
    let (p, _, h2) =
      >>=-eq-ok (checked_profile which name spec s)
        (λ p. ok (persist_profile name spec (set_profile name p s))) h1 in
    keeps_ok h2 (
      keeps_set name spec p s s (same_refl s)
        (not_new name s all (guard-true _ (profile_exists_error name) u g)))

pub update-keeps :
    (which : String → Bool) (name : String) (spec : Dict Value) (s t : Supervisor)
    → update_profile which name spec s ≡ ok t
    → KeepsManaged s t
unfolding update_profile
update-keeps which name spec s t h =
    let (u, g, h1) = >>=-eq-ok (require_mutable name s) _ h in
    let (p, _, h2) = >>=-eq-ok (checked_profile which name spec s) _ h1 in
    let (r, e, h3) =
      >>=-eq-ok (stop (some name) s) (λ r. ok (persist_profile name spec (set_profile name p r.1)))
        h2 in
    keeps_ok h3 (
      keeps_set name spec p s r.1 (stop-same (some name) s r e)
        (not_static name s.static_names (mutable-not_static name s u g)))

pub delete-keeps :
    (name : String) (s t : Supervisor) → delete_profile name s ≡ ok t → KeepsManaged s t
unfolding delete_profile
delete-keeps name s t h =
    let (u, g, h1) = >>=-eq-ok (require_mutable name s) _ h in
    let (r, e, h2) = >>=-eq-ok (stop (some name) s) (λ r. ok (forget_profile name r.1)) h1 in
    keeps_ok h2 (
      keeps_forget name s r.1 (stop-same (some name) s r e)
        (not_static name s.static_names (mutable-not_static name s u g)))

keeps_made :
    (name : String) (made : Option Profile) (s : Supervisor)
    → member name s.static_names ≡ false
    → KeepsManaged s (elim made [ none ↦ s | some p ↦ set_profile name p s ])
keeps_made name none s h = keeps_refl s
keeps_made name (some p) s h = keeps_insert name p s (not_static name s.static_names h)

load_each-keeps :
    (specs : List (Dict Value)) (s t : Supervisor) → load_each specs s ≡ ok t → KeepsManaged s t
unfolding load_each
load_each-keeps [] s t h = keeps_ok h (keeps_refl s)
load_each-keeps (spec ∷ specs) s t h = elim (Option-cases (get "name" spec)) [
  | inl e ↦ load_each-keeps specs s t (rw (e, load_each) at h)
  | inr (v, e) ↦ elim (Option-cases (as_text v)) [
    | inl f ↦ load_each-keeps specs s t (rw (e, f, load_each) at h)
    | inr (name, f) ↦ elim (Bool-cases (member name s.static_names)) [
      | inl m ↦ load_each-keeps specs s t (rw (e, f, m, load_each) at h)
      | inr m ↦
          let (made, _, k) =
            >>=-eq-ok (profile_from_spec name spec s.config.agent_command)
              (λ made. load_each specs (elim made [ none ↦ s | some p ↦ set_profile name p s ]))
              (rw (e, f, m, load_each) at h) in
          keeps_trans (keeps_made name made s m) (load_each-keeps specs _ t k)
    ]
  ]
]

load_from-keeps : (r : Option Registry) (s t : Supervisor) → load_from r s ≡ ok t → KeepsManaged s t
load_from-keeps none s t h = keeps_ok h (keeps_refl s)
load_from-keeps (some r) s t h = load_each-keeps (all_profiles r) s t h

pub load_persisted-keeps : (s t : Supervisor) → load_persisted s ≡ ok t → KeepsManaged s t
unfolding load_persisted
load_persisted-keeps s t h = load_from-keeps s.registry s t h
