-- ===== src/Protocol/Parse.antt =====
-- The parsers of blemees_agent/protocol.py, from a frame's fields to a typed message.
pub mod Ids
use blemees_agent.Prelude.{
  if◌then◌else◌, is_some, Dict, lookup, keys, ℕ, String, Bool, false, Option, none, some, List, [],
  ◌∷◌, ◌==◌,
}
use blemees_agent.Prelude.Int.{ℤ, pos, negsuc}
use blemees_agent.Errors.{Result, ok, bad_field, missing_field, invalid_name, ◌>>=◌, ◌>>◌}
use blemees_agent.Value.{Value, text, array, as_text, as_int, as_object, truthy}
use blemees_agent.Protocol.{
  refuse, reject_extra_keys, get, opt_text, opt_str_id, opt_nonempty, require_nonempty,
  require_session_id, is_valid_name, require_valid_name,
}
use blemees_agent.Protocol.Messages.{
  HelloMessage, OpenMessage, ProfileListMessage, ProfileActionMessage, ProfileMutateMessage,
  PromptMessage, CancelMessage, CloseMessage, ListMessage, Role, owner, viewer, AttachMessage,
  DetachMessage, Outcome, selected, cancelled, PermissionResponseMessage, SessionInfoMessage,
  PingMessage, StatusMessage, NotifyTestMessage,
}

-- The `protocol` of a hello may be empty.
unfoldable pub require_protocol : Dict Value → Result String
require_protocol obj = elim (get "protocol" obj) [
  | none ↦ refuse (missing_field "protocol")
  | some v ↦ elim (as_text v) [ none ↦ refuse (missing_field "protocol") | some s ↦ ok s ]
]

unfoldable pub parse_hello : Dict Value → Result HelloMessage
parse_hello obj = do
  reject_extra_keys obj ("type" ∷ "protocol" ∷ "client" ∷ [])
  protocol ← require_protocol obj
  client ← opt_text "client" obj
  ok (record { client = client; protocol = protocol })

-- `obj.get("options")`, absent and null being the empty object
unfoldable pub opt_object : String → Dict Value → Result (Dict Value)
opt_object key obj = elim (get key obj) [
  | none ↦ ok []
  | some v ↦ elim (as_object v) [ none ↦ refuse (bad_field key) | some d ↦ ok d ]
]

-- `bool(obj.get(key, False))`
unfoldable pub flag : String → Dict Value → Bool
flag key obj = elim (lookup key obj) [ none ↦ false | some v ↦ truthy v ]

unfoldable pub natural : String → Option ℤ → Result (Option ℕ)
natural key (some (pos n)) = ok (some n)
natural key (some (negsuc n)) = refuse (bad_field key)
natural key none = refuse (bad_field key)

-- "must be a non-negative integer"
unfoldable pub opt_seq : Dict Value → Result (Option ℕ)
unfolding natural
opt_seq obj = elim (get "last_seen_seq" obj) [
  | none ↦ ok none
  | some v ↦ natural "last_seen_seq" (as_int v)
]

-- `alias or None`
abbrev pub drop_empty : Option String → Option String
drop_empty none = none
drop_empty (some s) = if s == "" then none else some s

abbrev pub open_keys : List String
open_keys =
    "type" ∷ "id" ∷ "session_id" ∷ "resume" ∷ "last_seen_seq" ∷ "options" ∷ "alias" ∷ "profile"
    ∷ "agent" ∷ []

unfoldable pub parse_open : Dict Value → Result OpenMessage
parse_open obj = do
  reject_extra_keys obj open_keys
  session_id ← require_session_id obj
  options ← opt_object "options" obj
  last_seen_seq ← opt_seq obj
  alias ← opt_text "alias" obj
  profile ← opt_nonempty "profile" obj
  agent ← opt_nonempty "agent" obj
  id ← opt_str_id obj
  ok (record {
    id = id;
    session_id = session_id;
    options = options;
    resume = flag "resume" obj;
    profile = profile;
    agent = agent;
    last_seen_seq = last_seen_seq;
    alias = drop_empty alias;
  })

unfoldable pub parse_profile_list : Dict Value → Result ProfileListMessage
parse_profile_list obj = do
  reject_extra_keys obj ("type" ∷ "id" ∷ [])
  id ← opt_str_id obj
  ok (record { id = id })

unfoldable pub parse_profile_action : Dict Value → Result ProfileActionMessage
parse_profile_action obj = do
  reject_extra_keys obj ("type" ∷ "id" ∷ "name" ∷ [])
  name ← require_nonempty "name" obj
  id ← opt_str_id obj
  ok (record { id = id; name = name })

unfoldable pub require_profile : Dict Value → Result (Dict Value)
require_profile obj = elim (get "profile" obj) [
  | none ↦ refuse (missing_field "profile")
  | some v ↦ elim (as_object v) [ none ↦ refuse (missing_field "profile") | some d ↦ ok d ]
]

-- The top-level name, and only where that is absent or null the profile's own.
unfoldable pub profile_name : Dict Value → Dict Value → Result String
profile_name obj profile =
    if is_some (get "name" obj)
    then require_nonempty "name" obj
    else require_nonempty "name" profile

unfoldable pub check_names : List String → Result (Unit {0})
check_names [] = ok tt
check_names (k ∷ ks) = if is_valid_name k then check_names ks else refuse (invalid_name k)

-- The names of an `agents` object; another value passes.
unfoldable pub check_agents : Dict Value → Result (Unit {0})
unfolding check_names
check_agents profile = elim (lookup "agents" profile) [
  | none ↦ ok tt
  | some v ↦ elim (as_object v) [ none ↦ ok tt | some agents ↦ check_names (keys agents) ]
]

unfoldable pub parse_profile_mutate : Dict Value → Result ProfileMutateMessage
parse_profile_mutate obj = do
  reject_extra_keys obj ("type" ∷ "id" ∷ "name" ∷ "profile" ∷ [])
  profile ← require_profile obj
  name ← profile_name obj profile
  require_valid_name name >>= λ _. ok tt
  check_agents profile
  id ← opt_str_id obj
  ok (record { id = id; name = name; profile = profile })

-- "must be a string or array of content blocks"
unfoldable pub require_prompt : Dict Value → Result Value
require_prompt obj = elim (lookup "prompt" obj) [
  | none ↦ refuse (bad_field "prompt")
  | some v ↦ elim v [
    | text s ↦ ok (text s)
    | array vs ↦ ok (array vs)
    | _ ↦ refuse (bad_field "prompt")
  ]
]

unfoldable pub parse_prompt : Dict Value → Result PromptMessage
parse_prompt obj = do
  reject_extra_keys obj ("type" ∷ "session_id" ∷ "prompt" ∷ [])
  session_id ← require_session_id obj
  prompt ← require_prompt obj
  ok (record { session_id = session_id; content = prompt })

unfoldable pub parse_cancel : Dict Value → Result CancelMessage
parse_cancel obj = do
  reject_extra_keys obj ("type" ∷ "session_id" ∷ [])
  session_id ← require_session_id obj
  ok (record { session_id = session_id })

unfoldable pub parse_close : Dict Value → Result CloseMessage
parse_close obj = do
  reject_extra_keys obj ("type" ∷ "id" ∷ "session_id" ∷ "delete" ∷ [])
  session_id ← require_session_id obj
  id ← opt_str_id obj
  ok (record { id = id; session_id = session_id; delete = flag "delete" obj })

unfoldable pub parse_list : Dict Value → Result ListMessage
parse_list obj = do
  reject_extra_keys obj ("type" ∷ "id" ∷ "cwd" ∷ [])
  cwd ← opt_nonempty "cwd" obj
  id ← opt_str_id obj
  ok (record { id = id; cwd = cwd })

unfoldable pub parse_ping : Dict Value → Result PingMessage
parse_ping obj = do
  reject_extra_keys obj ("type" ∷ "id" ∷ "data" ∷ [])
  id ← opt_str_id obj
  ok (record { id = id; payload = lookup "data" obj })

unfoldable pub parse_status : Dict Value → Result StatusMessage
parse_status obj = do
  reject_extra_keys obj ("type" ∷ "id" ∷ [])
  id ← opt_str_id obj
  ok (record { id = id })

unfoldable pub parse_notify_test : Dict Value → Result NotifyTestMessage
parse_notify_test obj = do
  reject_extra_keys obj ("type" ∷ "id" ∷ "profile" ∷ [])
  profile ← opt_nonempty "profile" obj
  id ← opt_str_id obj
  ok (record { id = id; profile = profile })

unfoldable pub role_of : Option Value → Result Role
role_of none = ok viewer
role_of (some v) = elim (as_text v) [
  | none ↦ refuse (bad_field "as")
  | some s ↦
      if s == "owner"
      then ok owner
      else if s == "viewer"
      then ok viewer
      else refuse (bad_field "as")
]

unfoldable pub parse_attach : Dict Value → Result AttachMessage
parse_attach obj = do
  reject_extra_keys obj ("type" ∷ "id" ∷ "session_id" ∷ "as" ∷ "last_seen_seq" ∷ [])
  session_id ← require_session_id obj
  role ← role_of (lookup "as" obj)
  last_seen_seq ← opt_seq obj
  id ← opt_str_id obj
  ok (record { id = id; session_id = session_id; role = role; last_seen_seq = last_seen_seq })

unfoldable pub parse_detach : Dict Value → Result DetachMessage
parse_detach obj = do
  reject_extra_keys obj ("type" ∷ "id" ∷ "session_id" ∷ [])
  id ← opt_str_id obj
  session_id ← require_session_id obj
  ok (record { id = id; session_id = session_id })

unfoldable pub require_outcome : Dict Value → Result Outcome
require_outcome obj = elim (get "outcome" obj) [
  | none ↦ refuse (bad_field "outcome")
  | some v ↦ elim (as_text v) [
    | none ↦ refuse (bad_field "outcome")
    | some s ↦
        if s == "selected"
        then ok selected
        else if s == "cancelled"
        then ok cancelled
        else refuse (bad_field "outcome")
  ]
]

-- "'option_id' is required when outcome is 'selected'"
unfoldable pub check_option : Outcome → Option String → Result (Unit {0})
check_option selected none = refuse (missing_field "option_id")
check_option selected (some s) = if s == "" then refuse (missing_field "option_id") else ok tt
check_option cancelled o = ok tt

unfoldable pub parse_permission_response : Dict Value → Result PermissionResponseMessage
parse_permission_response obj = do
  reject_extra_keys obj ("type" ∷ "session_id" ∷ "request_id" ∷ "outcome" ∷ "option_id" ∷ [])
  session_id ← require_session_id obj
  request_id ← require_nonempty "request_id" obj
  outcome ← require_outcome obj
  option_id ← opt_text "option_id" obj
  check_option outcome option_id
  ok (record {
    session_id = session_id;
    request_id = request_id;
    outcome = outcome;
    option_id = option_id;
  })

unfoldable pub parse_session_info : Dict Value → Result SessionInfoMessage
parse_session_info obj = do
  reject_extra_keys obj ("type" ∷ "id" ∷ "session_id" ∷ [])
  id ← opt_str_id obj
  session_id ← require_session_id obj
  ok (record { id = id; session_id = session_id })
