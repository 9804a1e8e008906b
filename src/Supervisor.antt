-- ===== src/Supervisor.antt =====
-- blemees_agent/supervisor.py: which profiles there are, which of them the configuration
-- manages, and the bookkeeping of the agents' processes. Starting a process is not in it, and
-- what is logged is left out.
pub mod Profiles
pub mod Crud
use blemees_agent.Prelude.{
  length, leb, nat_eq, if◌then◌else◌, or_else, from_option, head?, Dict, lookup, keys, values, ℕ,
  ◌+◌, String, Bool, true, false, ◌&&◌, Option, none, some, List, [], ◌∷◌, ◌++◌, map, ◌==◌,
}
use blemees_agent.Value.{Value, text, as_text, truthy}
use blemees_agent.Errors.{
  Result, ok, err, ◌>>=◌, ◌>>◌, guard, type_error, profile_unknown_error, profile_exists_error,
  profile_protected_error, agent_unavailable_error,
}
use blemees_agent.Protocol.{get, is_valid_name}
use blemees_agent.Notify.{member}
use blemees_agent.Registry.{Registry, save, get_true, all_profiles, upsert_profile, remove_profile}
use blemees_agent.Supervisor.Profiles.{
  agent_path, Agent, Profile, Config, default_profile, default_agent, profile_from_spec,
  profiles_from_config,
}

-- An agent's process: which one it is, and how many sessions it has.
pub record Process : Type 0 where
  pub number : ℕ
  pub session_count : ℕ

pub record Supervisor : Type 0 where
  pub config : Config
  pub registry : Option Registry
  pub profiles : Dict Profile
  pub static_names : List String
  pub processes : List ((String × String) × Process)
  pub idle_since : List ((String × String) × ℕ)
  -- the processes that were closed
  pub closed : List Process

-- `Supervisor.__init__`
unfoldable pub new_supervisor : Config → Option Registry → Result Supervisor
new_supervisor config registry = do
  profiles ← profiles_from_config config
  ok (record {
    config = config;
    registry = registry;
    profiles = profiles;
    static_names = keys profiles;
    processes = [];
    idle_since = [];
    closed = [];
  })

-- `Supervisor.get_profile`: no name and an empty one are the default's.
abbrev pub name_or_default : Option String → String
name_or_default none = default_profile
name_or_default (some name) = if name == "" then default_profile else name

unfoldable pub get_profile : Option String → Supervisor → Result Profile
get_profile name s = elim (lookup (name_or_default name) s.profiles) [
  | none ↦ err (profile_unknown_error (name_or_default name))
  | some p ↦ ok p
]

-- `Profile.default_agent`: the one of that name, else the first. A profile has an agent.
unfoldable pub default_agent_of : Profile → Option Agent
default_agent_of p = or_else (lookup default_agent p.agents) (head? (values p.agents))

-- `Supervisor.resolve`
unfoldable pub resolve :
    Option String → Option String → Supervisor → Result (Profile × Option Agent)
resolve profile_name none s = do
  profile ← get_profile profile_name s
  ok (profile, default_agent_of profile)
resolve profile_name (some agent_name) s = do
  profile ← get_profile profile_name s
  elim (lookup agent_name profile.agents) [
    | none ↦ err (profile_unknown_error (agent_path profile.name agent_name))
    | some agent ↦ ok (profile, some agent)
  ]

-- A setting of a profile's own `notify` table.
abbrev pub own_notify : String → Option String → Supervisor → Option Value
own_notify key name s = elim (lookup (name_or_default name) s.profiles) [
  | none ↦ none
  | some p ↦ get_true key p.notify
]

-- `Supervisor.webhook_url_for`
unfoldable pub webhook_url_for : Option String → Supervisor → Option Value
webhook_url_for name s = or_else (own_notify "webhook_url" name s) s.config.notify_webhook_url

-- `Supervisor.webhook_format_for`
unfoldable pub webhook_format_for : Option String → Supervisor → String
webhook_format_for name s =
    let global = s.config.notify_webhook_format in
    let chosen =
      from_option (text (if global == "" then "json" else global)) (own_notify "format" name s) in
    elim (as_text chosen) [ none ↦ "json" | some f ↦ if f == "ntfy" then "ntfy" else "json" ]

abbrev pub same_key : String × String → String × String → Bool
same_key (p, a) (q, b) = p == q && a == b

module _ {V : Type 0} where
  -- `d.get(key)` and `d.pop(key, None)` of a dict whose keys are pairs
  unfoldable pub at_key : String × String → List ((String × String) × V) → Option V
  at_key key [] = none
  at_key key ((k, v) ∷ d) = if same_key k key then some v else at_key key d

  unfoldable pub pop_key :
      String × String → List ((String × String) × V) → List ((String × String) × V)
  pop_key key [] = []
  pop_key key ((k, v) ∷ d) =
      let rest = pop_key key d in if same_key k key then rest else (k, v) ∷ rest

  -- `d[key] = v`: an old key keeps its place
  unfoldable pub put_key :
      String × String → V → List ((String × String) × V) → List ((String × String) × V)
  put_key key v [] = (key, v) ∷ []
  put_key key v ((k, w) ∷ d) = if same_key k key then (k, v) ∷ d else (k, w) ∷ put_key key v d

-- The process of an agent, which is new where there is none: it gets the next number.
abbrev pub fresh_process : Supervisor → Process
fresh_process s = record { number = length s.processes + length s.closed; session_count = 0 }

-- `_process_for`
unfoldable pub process_for : String × String → Supervisor → Supervisor
process_for key s = elim (at_key key s.processes) [
  | none ↦ record s { processes = put_key key (fresh_process s) s.processes }
  | some p ↦ s
]

-- The bookkeeping of `make_handle`, which may raise for the names; acquiring is not idle.
unfoldable pub make_handle : Option String → Option String → Supervisor → Result Supervisor
unfolding process_for
make_handle profile_name agent_name s = do
  found ← resolve profile_name agent_name s
  ok (elim found.1 [
    | none ↦ s
    | some agent ↦
        let t = process_for (found.0.name, agent.name) s in
        record t { idle_since = pop_key (found.0.name, agent.name) t.idle_since }
  ])

-- `await proc.close()` of a process that is dropped
abbrev pub close_process : String × String → Process → Supervisor → Supervisor
close_process key p s = record s {
  processes = pop_key key s.processes;
  idle_since = pop_key key s.idle_since;
  closed = p ∷ s.closed;
}

unfoldable pub stop_agent : String × String → Supervisor → ℕ × Supervisor
stop_agent key s = elim (at_key key s.processes) [
  | none ↦ (0, record s { idle_since = pop_key key s.idle_since })
  | some p ↦ (1, close_process key p s)
]

unfoldable pub stop_agents : String → List Agent → Supervisor → ℕ × Supervisor
stop_agents profile [] s = (0, s)
stop_agents profile (a ∷ as') s =
    let (m, s') = stop_agent (profile, a.name) s in
    let (n, t) = stop_agents profile as' s' in (m + n, t)

-- `Supervisor.stop`, which says how many processes it closed
unfoldable pub stop : Option String → Supervisor → Result (ℕ × Supervisor)
stop name s = do
  profile ← get_profile name s
  ok (stop_agents profile.name (values profile.agents) s)

-- `_on_session_close`
unfoldable pub on_session_close : ℕ → String × String → Process → Supervisor → Supervisor
on_session_close now key p s =
    if nat_eq p.session_count 0 then record s { idle_since = put_key key now s.idle_since } else s

-- The processes that `Supervisor.reap_idle` closes, and what is left of the rest.
unfoldable pub reap_each :
    ℕ → ℕ → List ((String × String) × ℕ) → Supervisor → List String × Supervisor
reap_each timeout now [] s = ([], s)
reap_each timeout now ((key, since) ∷ idle) s = elim (at_key key s.processes) [
  | none ↦ reap_each timeout now idle (record s { idle_since = pop_key key s.idle_since })
  | some p ↦ elim (nat_eq p.session_count 0 && leb (since + timeout) now) [
    | false ↦ reap_each timeout now idle s
    | true ↦
        let (names, t) = reap_each timeout now idle (close_process key p s) in
        (agent_path key.0 key.1 ∷ names, t)
  ]
]

-- `Supervisor.reap_idle`
unfoldable pub reap_idle : ℕ → ℕ → Supervisor → List String × Supervisor
reap_idle timeout now s = reap_each timeout now s.idle_since s

-- `Supervisor.close_all`
unfoldable pub close_all : Supervisor → Supervisor
close_all s = record s {
  processes = [];
  idle_since = [];
  closed = map (λ e. e.1) s.processes ++ s.closed;
}
