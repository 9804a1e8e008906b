-- ===== src/Supervisor/Profiles.antt =====
-- blemees_agent/supervisor.py: the profiles and their agents, and how they are read from the
-- tables of the configuration and of the wire. What is logged is left out.
use blemees_agent.Prelude.{
  if◌then◌else◌, or_else, from_option, Dict, lookup, insert, erase, keys, String, true, false, not,
  ◌&&◌, Option, none, some, List, [], ◌∷◌, map,
}
use blemees_agent.Value.{
  Value, Items, text, field, array, object, nil, item, entries, items_of, as_text, as_object,
}
use blemees_agent.Errors.{Result, ok, err, ◌>>=◌, type_error}
use blemees_agent.Protocol.{get, is_valid_name}
use blemees_agent.Notify.{blocked_triggers, known_triggers, member}
use blemees_agent.Registry.{get_true}

abbrev pub default_profile : String
default_profile = "default"

abbrev pub default_agent : String
default_agent = "default"

pub record Agent : Type 0 where
  pub name : String
  pub command : Value
  pub args : List Value
  pub model : Option Value
  pub mode : Option Value
  pub agent_home : Option Value
  pub mcp_servers : List Value
  pub env : Dict Value

pub record Profile : Type 0 where
  pub name : String
  pub agents : Dict Agent
  pub permission_policy : Dict Value
  pub notify : Dict Value
  pub attention_triggers : List String

-- `list(v or [])`, where a value that is false has been left out: a text gives its characters, and an object its keys.
abbrev pub characters : String → List Value
characters String.[] = []
characters (String.◌∷◌ c s) = text (String.◌∷◌ c String.[]) ∷ characters s

unfoldable pub list_of : Option Value → Result (List Value)
list_of none = ok []
list_of (some (array vs)) = ok (items_of vs)
list_of (some (text s)) = ok (characters s)
list_of (some (object fs)) = ok (map text (keys (entries fs)))
list_of (some v) = err type_error

-- `dict(v or {})`: of the lists only those of pairs whose first item is a text, and every other
-- list is taken for one that raises.
unfoldable pub dict_of_pairs : Items → Result (Dict Value)
dict_of_pairs nil = ok []
dict_of_pairs (item (array (item (text k) (item v nil))) vs) = do
  d ← dict_of_pairs vs
  ok (
      from_option ((k, v) ∷ d)
        (elim (lookup k d) [ none ↦ none | some w ↦ some ((k, w) ∷ erase k d) ]))
dict_of_pairs (item _ vs) = err type_error

unfoldable pub dict_of : Option Value → Result (Dict Value)
dict_of none = ok []
dict_of (some (object fs)) = ok (entries fs)
dict_of (some (array vs)) = dict_of_pairs vs
dict_of (some v) = err type_error

-- `_agent_from_spec`
unfoldable pub agent_from_spec : String → Dict Value → String → Result Agent
agent_from_spec name spec fallback = do
  args ← list_of (or_else (get_true "agent_args" spec) (get_true "args" spec))
  mcp_servers ← list_of (get_true "mcp_servers" spec)
  env ← dict_of (get_true "env" spec)
  ok (record {
    name = name;
    command =
        from_option (text fallback)
          (or_else (get_true "agent_command" spec) (get_true "command" spec));
    args = args;
    model = get "model" spec;
    mode = get "mode" spec;
    agent_home = get "agent_home" spec;
    mcp_servers = mcp_servers;
    env = env;
  })

-- The agents of an `agents` table: an entry that is no table or has no valid name is skipped.
unfoldable pub agents_from_table : Dict Value → String → Dict Agent → Result (Dict Agent)
agents_from_table [] fallback agents = ok agents
agents_from_table ((name, spec) ∷ table) fallback agents = elim (as_object spec) [
  | none ↦ agents_from_table table fallback agents
  | some fields ↦ elim (is_valid_name name) [
    | false ↦ agents_from_table table fallback agents
    | true ↦ agent_from_spec name fields fallback >>= λ agent.
        agents_from_table table fallback (insert name agent agents)
  ]
]

abbrev pub one_agent : Dict Value → String → Result (Dict Agent)
one_agent spec fallback = do
  agent ← agent_from_spec default_agent spec fallback
  ok ((default_agent, agent) ∷ [])

-- The table of agents, the single agent, or the profile itself as the agent.
unfoldable pub agents_from_spec : Dict Value → String → Result (Dict Agent)
agents_from_spec pspec fallback = elim (get "agents" pspec) [
  | some (object (field k v fs)) ↦ agents_from_table ((k, v) ∷ entries fs) fallback []
  | _ ↦ elim (get "agent" pspec) [
    | some (object fs) ↦ one_agent (entries fs) fallback
    | _ ↦ one_agent pspec fallback
  ]
]

-- `armed.add(t)` of the triggers that are known
unfoldable pub armed : List Value → List String → List String
armed [] triggers = triggers
armed (v ∷ vs) triggers = elim (as_text v) [
  | none ↦ armed vs triggers
  | some t ↦
      armed vs
        (if member t known_triggers && not (member t triggers) then t ∷ triggers else triggers)
]

-- `_attention_triggers_from_spec`
unfoldable pub attention_triggers_from_spec : Dict Value → List String
attention_triggers_from_spec pspec = elim (get "attention" pspec) [
  | some (object fs) ↦ elim (get "triggers" (entries fs)) [
    | some (array vs) ↦ armed (items_of vs) []
    | _ ↦ blocked_triggers
  ]
  | _ ↦ blocked_triggers
]

-- A table at a key, or what stands in for it.
abbrev pub table_at : String → Dict Value → Dict Value → Dict Value
table_at key fallback d = elim (get key d) [
  | none ↦ fallback
  | some v ↦ from_option fallback (as_object v)
]

-- `_profile_from_spec`: a profile whose agents were all skipped is none.
unfoldable pub profile_from_spec : String → Dict Value → String → Result (Option Profile)
profile_from_spec name pspec fallback = do
  agents ← agents_from_spec pspec fallback
  ok (elim agents [
    | [] ↦ none
    | a ∷ as' ↦ some (record {
      name = name;
      agents = a ∷ as';
      permission_policy =
          table_at "permission_policy" (("mode", text "relay") ∷ ("detached", text "stall") ∷ [])
            pspec;
      notify = table_at "notify" [] pspec;
      attention_triggers = attention_triggers_from_spec pspec;
    })
  ])

-- The settings of `Config` that are read here.
pub record Config : Type 0 where
  pub agent_command : String
  pub agent_args : List Value
  pub profiles : Dict Value
  pub notify_webhook_url : Option Value
  pub notify_webhook_format : String

abbrev pub synthesised : Config → Profile
synthesised config = record {
  name = default_profile;
  agents =
      (
        default_agent,
        record {
          name = default_agent;
          command = text config.agent_command;
          args = config.agent_args;
          model = none;
          mode = none;
          agent_home = none;
          mcp_servers = [];
          env = [];
        },
      )
      ∷ [];
  permission_policy = ("mode", text "relay") ∷ ("detached", text "stall") ∷ [];
  notify = [];
  attention_triggers = blocked_triggers;
}

unfoldable pub add_profiles : Dict Value → String → Dict Profile → Result (Dict Profile)
add_profiles [] fallback profiles = ok profiles
add_profiles ((name, spec) ∷ table) fallback profiles = elim (as_object spec) [
  | none ↦ add_profiles table fallback profiles
  | some pspec ↦ elim (is_valid_name name) [
    | false ↦ add_profiles table fallback profiles
    | true ↦ profile_from_spec name pspec fallback >>= λ made.
        add_profiles table fallback
          (elim made [ none ↦ profiles | some p ↦ insert name p profiles ])
  ]
]

-- `_profiles_from_config`
unfoldable pub profiles_from_config : Config → Result (Dict Profile)
profiles_from_config config =
    add_profiles config.profiles config.agent_command ((default_profile, synthesised config) ∷ [])

abbrev join : String → String → String
join String.[] t = t
join (String.◌∷◌ c s) t = String.◌∷◌ c (join s t)

-- f"{profile}/{agent}"
unfoldable pub agent_path : String → String → String
agent_path profile agent = join (join profile "/") agent
