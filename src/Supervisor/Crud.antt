-- ===== src/Supervisor/Crud.antt =====
-- blemees_agent/supervisor.py: the profiles that are made, changed and removed over the wire, and
-- those that the registry has kept. `which` stands for `shutil.which`, which finds a binary.
pub mod Keeps
pub mod Managed
use blemees_agent.Prelude.{
  is_some, is_none, Dict, lookup, insert, erase, values, String, Bool, true, false, not, Option,
  none, some, List, [], ◌∷◌,
}
use blemees_agent.Value.{Value, text, as_text}
use blemees_agent.Errors.{
  Result, ok, err, ◌>>=◌, ◌>>◌, guard, type_error, profile_unknown_error, profile_exists_error,
  profile_protected_error, agent_unavailable_error,
}
use blemees_agent.Protocol.{get}
use blemees_agent.Notify.{member}
use blemees_agent.Registry.{Registry, save, all_profiles, upsert_profile, remove_profile}
use blemees_agent.Supervisor.{Supervisor, stop}
use blemees_agent.Supervisor.Profiles.{Agent, Profile, profile_from_spec}

-- `_validate_agents_available`
unfoldable pub validate_agents : (String → Bool) → String → List Agent → Result (Unit {0})
validate_agents which profile [] = ok tt
validate_agents which profile (a ∷ as') = elim (as_text a.command) [
  | none ↦ err type_error
  | some c ↦
      guard (which c) (agent_unavailable_error c (some profile))
      >> validate_agents which profile as'
]

abbrev pub set_profile : String → Profile → Supervisor → Supervisor
set_profile name p s = record s { profiles = insert name p s.profiles }

-- `_persist_profile`
unfoldable pub persist_profile : String → Dict Value → Supervisor → Supervisor
persist_profile name spec s = record s {
  registry = elim s.registry [ none ↦ none | some r ↦ some (save (upsert_profile name spec r)) ];
}

-- The profile of a spec that is taken over, with its binaries there.
unfoldable pub checked_profile : (String → Bool) → String → Dict Value → Supervisor → Result Profile
checked_profile which name spec s = profile_from_spec name spec s.config.agent_command >>= λ made.
    elim made [
      | none ↦ err (profile_unknown_error name)
      | some p ↦ validate_agents which p.name (values p.agents) >> ok p
    ]

-- `create_profile`
unfoldable pub create_profile :
    (String → Bool) → String → Dict Value → Supervisor → Result Supervisor
create_profile which name spec s = do
  guard (is_none (lookup name s.profiles)) (profile_exists_error name)
  p ← checked_profile which name spec s
  ok (persist_profile name spec (set_profile name p s))

-- `name not in self._profiles`, and `_ensure_mutable`
unfoldable pub require_mutable : String → Supervisor → Result (Unit {0})
require_mutable name s = do
  guard (is_some (lookup name s.profiles)) (profile_unknown_error name)
  guard (not (member name s.static_names)) (profile_protected_error name)

-- `update_profile`
unfoldable pub update_profile :
    (String → Bool) → String → Dict Value → Supervisor → Result Supervisor
update_profile which name spec s = do
  require_mutable name s
  p ← checked_profile which name spec s
  stopped ← stop (some name) s
  ok (persist_profile name spec (set_profile name p stopped.1))

abbrev pub forget_profile : String → Supervisor → Supervisor
forget_profile name s = record s {
  profiles = erase name s.profiles;
  registry = elim s.registry [ none ↦ none | some r ↦ some (save (remove_profile name r).1) ];
}

-- `delete_profile`
unfoldable pub delete_profile : String → Supervisor → Result Supervisor
delete_profile name s = do
  require_mutable name s
  stopped ← stop (some name) s
  ok (forget_profile name stopped.1)

-- The specs that `load_persisted` takes over, one by one.
unfoldable pub load_each : List (Dict Value) → Supervisor → Result Supervisor
load_each [] s = ok s
load_each (spec ∷ specs) s = elim (get "name" spec) [
  | none ↦ load_each specs s
  | some v ↦ elim (as_text v) [
    | none ↦ load_each specs s
    | some name ↦ elim (member name s.static_names) [
      | true ↦ load_each specs s
      | false ↦ profile_from_spec name spec s.config.agent_command >>= λ made.
          load_each specs (elim made [ none ↦ s | some p ↦ set_profile name p s ])
    ]
  ]
]

abbrev pub load_from : Option Registry → Supervisor → Result Supervisor
load_from none s = ok s
load_from (some r) s = load_each (all_profiles r) s

-- `load_persisted`
unfoldable pub load_persisted : Supervisor → Result Supervisor
load_persisted s = load_from s.registry s
