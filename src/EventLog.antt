-- ===== src/EventLog.antt =====
-- The frames of a session's event stream, and blemees_agent/event_log.py: the ring buffer
-- (`Ring`) and the durable log (`Durable`).
pub mod Ring
pub mod Durable
use blemees_agent.Prelude.{from_option, Dict, ℕ, String, Option, List}
use blemees_agent.Value.{Value}

-- One option of a permission request: `{option_id, name, kind}`.
pub record PermissionOption : Type 0 where
  pub option_id : String
  pub name : String
  pub kind : String

-- What a frame says: its `type` and the fields of that type.
pub data Event : Type 0 where
  update : Value → Event
  result : Option String → Option (Dict Value) → Event
  error : String → Option String → Event
  stderr : String → Event
  needs_attention : String → Event
  attention_cleared : Event
  request_permission : String → List PermissionOption → Value → Event
  replay_gap : ℕ → ℕ → Event
  closed_notice : String → Event
  -- any other object, read back from disk
  other : Value → Event

-- A frame's `session_id` and `seq` are absent until the session stamps them.
pub record Frame : Type 0 where
  pub session_id : Option String
  pub seq : Option ℕ
  pub event : Event

-- frame.get("seq", 0)
abbrev pub seq_of : Frame → ℕ
seq_of f = from_option 0 f.seq
