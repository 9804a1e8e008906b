-- ===== src/Supervisor/Crud/Managed.antt =====
-- The profiles that the configuration manages, under any sequence of requests
-- (blemees_agent/supervisor.py).
use blemees_agent.Prelude.{
  Bool-cases, is_some, Dict, lookup, keys, String, ◌≡◌, refl, sym, ap, ◌∙◌, inl, inr, Bool, true,
  Option, List, [], ◌∷◌, ◌==◌,
}
use mathlib.Core.Path.{subst}
use blemees_agent.Value.{Value}
use blemees_agent.Errors.{ok_injective, Result, ok, err, ◌>>=◌, >>=-eq-ok}
use blemees_agent.Notify.{member}
use blemees_agent.Registry.{Registry}
use blemees_agent.Supervisor.{Supervisor, stop, new_supervisor}
use blemees_agent.Supervisor.Profiles.{Config, Profile, profiles_from_config}
use blemees_agent.Supervisor.Crud.{create_profile, update_profile, delete_profile, load_persisted}
use blemees_agent.Supervisor.Crud.Keeps.{
  KeepsManaged, AllManaged, keeps_refl, keeps_trans, keeps_ok, stop-same, create-keeps,
  update-keeps, delete-keeps, load_persisted-keeps,
}

-- What is asked of the supervisor over the wire, and at its start.
pub data Request : Type 0 where
  create update : String → Dict Value → Request
  delete : String → Request
  stop_profile : Option String → Request
  restore : Request

-- The supervisor after a request: one that fails changes nothing. (Restoring raises only for a
-- spec in the file that no request made, and then the daemon does not start.)
abbrev pub after : Supervisor → Result Supervisor → Supervisor
after s (ok t) = t
after s (err e) = s

unfoldable pub handle : (String → Bool) → Request → Supervisor → Result Supervisor
unfolding create_profile update_profile delete_profile load_persisted stop
handle which (create name spec) s = create_profile which name spec s
handle which (update name spec) s = update_profile which name spec s
handle which (delete name) s = delete_profile name s
handle which (stop_profile name) s = stop name s >>= λ r. ok r.1
handle which restore s = load_persisted s

unfoldable pub handle_all : (String → Bool) → List Request → Supervisor → Supervisor
unfolding handle
handle_all which [] s = s
handle_all which (r ∷ rs) s = handle_all which rs (after s (handle which r s))

handle-keeps :
    (which : String → Bool) (r : Request) (s t : Supervisor)
    → AllManaged s
    → handle which r s ≡ ok t
    → KeepsManaged s t
unfolding handle
handle-keeps which (create name spec) s t all h = create-keeps which name spec s t all h
handle-keeps which (update name spec) s t all h = update-keeps which name spec s t h
handle-keeps which (delete name) s t all h = delete-keeps name s t h
handle-keeps which (stop_profile name) s t all h =
    let (r, e, k) = >>=-eq-ok (stop name s) (λ r. ok r.1) h in
    let same = stop-same name s r e in
    keeps_ok k
      (record { static_names = same.static_names; entry = λ n m. ap (lookup n) same.profiles })
handle-keeps which restore s t all h = load_persisted-keeps s t h

AllManaged-keeps : (s t : Supervisor) → KeepsManaged s t → AllManaged s → AllManaged t
AllManaged-keeps s t h all name m =
    let n : member name s.static_names ≡ true = sym (ap (member name) h.static_names) ∙ m in
    ap is_some (h.entry name n) ∙ all name n

after-keeps :
    (which : String → Bool) (r : Request) (s : Supervisor)
    → AllManaged s
    → (o : Result Supervisor) → handle which r s ≡ o
    → KeepsManaged s (after s o)
after-keeps which r s all (ok t) e = handle-keeps which r s t all e
after-keeps which r s all (err f) e = keeps_refl s

handle_all-keeps :
    (which : String → Bool) (rs : List Request) (s : Supervisor)
    → AllManaged s
    → KeepsManaged s (handle_all which rs s)
unfolding handle_all
handle_all-keeps which [] s all = keeps_refl s
handle_all-keeps which (r ∷ rs) s all =
    let h = after-keeps which r s all (handle which r s) refl in
    keeps_trans h (handle_all-keeps which rs _ (AllManaged-keeps s _ h all))

member-keys :
    (name : String) (d : Dict Profile)
    → member name (keys d) ≡ true
    → is_some (lookup name d) ≡ true
unfolding lookup
member-keys name [] h = cc
member-keys name ((k, p) ∷ d) h = elim (Bool-cases (k == name)) [
  | inl same ↦ rw same refl
  | inr other ↦ rw other (member-keys name d (rw other at h))
]

new_supervisor-AllManaged :
    (config : Config) (registry : Option Registry) (s : Supervisor)
    → new_supervisor config registry ≡ ok s
    → AllManaged s
unfolding new_supervisor
new_supervisor-AllManaged config registry s h =
    let (profiles, _, e) = >>=-eq-ok (profiles_from_config config) _ h in
    subst AllManaged (ok_injective _ s e) (λ name m. member-keys name profiles m)

-- A profile of the configuration is there from the start, and no sequence of requests (to
-- create, update, delete or stop a profile, or to restore those of the registry), whether they
-- succeed or fail, changes it or the set of managed names.
pub handle_all-managed :
    (which : String → Bool) (config : Config) (registry : Option Registry) (s : Supervisor)
    (rs : List Request) (name : String)
    → new_supervisor config registry ≡ ok s
    → member name s.static_names ≡ true
    → (is_some (lookup name s.profiles) ≡ true)
      × (lookup name (handle_all which rs s).profiles ≡ lookup name s.profiles)
      × ((handle_all which rs s).static_names ≡ s.static_names)
handle_all-managed which config registry s rs name made managed =
    let all = new_supervisor-AllManaged config registry s made in
    let k = handle_all-keeps which rs s all in
    (all name managed, k.entry name managed, k.static_names)
