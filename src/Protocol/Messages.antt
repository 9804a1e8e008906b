-- ===== src/Protocol/Messages.antt =====
-- The typed control messages of blemees_agent/protocol.py.
use blemees_agent.Prelude.{Dict, ℕ, String, Bool, Option}
use blemees_agent.Value.{Value}

pub record HelloMessage : Type 0 where
  pub client : Option String
  pub protocol : String

pub record OpenMessage : Type 0 where
  pub id : Option String
  pub session_id : String
  pub options : Dict Value
  pub resume : Bool
  pub profile : Option String
  pub agent : Option String
  pub last_seen_seq : Option ℕ
  pub alias : Option String

pub record ProfileListMessage : Type 0 where
  pub id : Option String

pub record ProfileActionMessage : Type 0 where
  pub id : Option String
  pub name : String

pub record ProfileMutateMessage : Type 0 where
  pub id : Option String
  pub name : String
  pub profile : Dict Value

-- The `prompt`: a text or an array of content blocks, in the envelope of role "user".
pub record PromptMessage : Type 0 where
  pub session_id : String
  pub content : Value

pub record CancelMessage : Type 0 where
  pub session_id : String

pub record CloseMessage : Type 0 where
  pub id : Option String
  pub session_id : String
  pub delete : Bool

pub record ListMessage : Type 0 where
  pub id : Option String
  pub cwd : Option String

pub data Role : Type 0 where
  owner viewer : Role

pub record AttachMessage : Type 0 where
  pub id : Option String
  pub session_id : String
  pub role : Role
  pub last_seen_seq : Option ℕ

pub record DetachMessage : Type 0 where
  pub id : Option String
  pub session_id : String

pub data Outcome : Type 0 where
  selected cancelled : Outcome

pub record PermissionResponseMessage : Type 0 where
  pub session_id : String
  pub request_id : String
  pub outcome : Outcome
  pub option_id : Option String

pub record SessionInfoMessage : Type 0 where
  pub id : Option String
  pub session_id : String

-- `data` is `none` where the key was absent (`_MISSING`).
pub record PingMessage : Type 0 where
  pub id : Option String
  pub payload : Option Value

pub record StatusMessage : Type 0 where
  pub id : Option String

pub record NotifyTestMessage : Type 0 where
  pub id : Option String
  pub profile : Option String
