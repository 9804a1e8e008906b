-- ===== src/Acp.antt =====
-- blemees_agent/backends/acp.py: what the daemon tells an agent. The children hold the process
-- that sessions share, its turns, and the handle by which a session sees it.
pub mod Process
pub mod Turns
pub mod Handle
use blemees_agent.Prelude.{
  if◌then◌else◌, or_else, from_option, head?, find_first, Dict, lookup, String, true, false, Option,
  none, some, List, [], ◌∷◌, ◌==◌,
}
use blemees_agent.Value.{Value, text, array, items_of, as_object}
use blemees_agent.Errors.{
  Failure, Result, ok, err, ◌>>=◌, ◌>>◌, bad_field, type_error, auth_required_error, request_error,
}
use blemees_agent.EventLog.{PermissionOption}
use blemees_agent.Protocol.{get, refuse}
use blemees_agent.Registry.{get_true}
use blemees_agent.Session.{allow, Decision, selected, cancelled}
use blemees_agent.Session.Permission.{is_of_kind}
use blemees_agent.Supervisor.Profiles.{list_of}

-- What a call of the agent raises: the code -32000 of an `acp.RequestError`, another code of
-- one, or any other exception.
pub data Raised : Type 0 where
  auth_code : String → Raised
  other_code : String → Raised
  other_exception : String → Raised

-- `_translate_request_error`: an exception that is no refusal of the agent passes through, and
-- is Python's own.
unfoldable pub translate_request_error : Raised → Failure
translate_request_error (auth_code why) = auth_required_error why
translate_request_error (other_code why) = request_error why
translate_request_error (other_exception why) = request_error why

-- A text block, by the value that `str` is called on.
pub record TextBlock : Type 0 where
  pub content : Value

-- The blocks of a list: one that is no text is refused.
unfoldable pub text_blocks : List Value → Result (List TextBlock)
text_blocks [] = ok []
text_blocks (v ∷ vs) = elim (as_object v) [
  | none ↦ refuse (bad_field "content")
  | some block ↦ elim (lookup "type" block) [
    | some (text kind) ↦ elim (kind == "text") [
      | true ↦ text_blocks vs >>= λ rest.
          ok (record { content = from_option (text "") (lookup "text" block) } ∷ rest)
      | false ↦ refuse (bad_field "content")
    ]
    | _ ↦ refuse (bad_field "content")
  ]
]

-- `_to_content_blocks`
unfoldable pub to_content_blocks : Dict Value → Result (List TextBlock)
to_content_blocks message = elim (get "content" message) [
  | some (text s) ↦ ok (record { content = text s } ∷ [])
  | some (array vs) ↦ text_blocks (items_of vs)
  | _ ↦ refuse (bad_field "content")
]

pub record McpServerStdio : Type 0 where
  pub name : Value
  pub command : Value
  pub args : List Value
  pub env : Dict Value

-- `(spec.get("env") or {}).items()`, whose values `str` is then called on
abbrev pub env_entries : Dict Value → Result (Dict Value)
env_entries spec = elim (get_true "env" spec) [
  | none ↦ ok []
  | some v ↦ elim (as_object v) [ none ↦ err type_error | some d ↦ ok d ]
]

-- `_mcp_servers`: an entry that is no table, or has no command, is skipped.
unfoldable pub mcp_servers : List Value → Result (List McpServerStdio)
mcp_servers [] = ok []
mcp_servers (v ∷ vs) = elim (as_object v) [
  | none ↦ mcp_servers vs
  | some spec ↦ elim (lookup "command" spec) [
    | none ↦ mcp_servers vs
    | some command ↦ do
      env ← env_entries spec
      args ← list_of (lookup "args" spec)
      rest ← mcp_servers vs
      ok (
          record {
            name = from_option command (lookup "name" spec);
            command = command;
            args = args;
            env = env;
          }
          ∷ rest)
  ]
]

-- What the agent is told of a permission request.
pub data Outcome : Type 0 where
  allowed : String → Outcome
  denied : Outcome

-- `request_permission` with no policy wired: the first option that allows, else the first; with
-- no option at all the code raises.
unfoldable pub auto_allow : List PermissionOption → Option Outcome
auto_allow options = elim (or_else (find_first (is_of_kind allow) options) (head? options)) [
  | none ↦ none
  | some o ↦ some (allowed o.option_id)
]

-- `request_permission` with the session's decision
unfoldable pub outcome_of : Decision → Outcome
outcome_of (selected id) = if id == "" then denied else allowed id
outcome_of (cancelled _) = denied
