-- ===== src/Session.antt =====
-- `Session` of blemees_agent/session.py: its state, and what its methods do to the world outside.
-- The children hold the methods; `Table` is the `SessionTable`.
pub mod Events
pub mod Attach
pub mod Permission
pub mod Usage
pub mod Title
pub mod Restore
pub mod Summary
use blemees_agent.Prelude.{
  Dict, ℕ, ◌+◌, String, Bool, false, Option, none, some, List, [], ◌∷◌, ◌++◌,
}
use blemees_agent.Prelude.Int.{ℤ, pos}
use blemees_agent.Value.{Value, text}
use blemees_agent.EventLog.{Frame, PermissionOption}
use blemees_agent.EventLog.Ring.{RingBuffer, init}
use blemees_agent.Notify.{Detail, blocked_triggers}

-- The `allow` and `deny` of a policy.
pub data Kind : Type 0 where
  allow deny : Kind

-- `{"outcome": …, "option_id": …}`
pub data Decision : Type 0 where
  selected : String → Decision
  cancelled : Option String → Decision

-- The future that a relayed permission request awaits.
pub data Future : Type 0 where
  waiting : Future
  decided : Decision → Future
  withdrawn : Future

-- A call of `decide_permission` that stands at its `await`.
pub record Waiter : Type 0 where
  pub options : List PermissionOption
  pub stalled : Bool
  pub future : Future

-- What the session reads of its backend.
pub record Backend : Type 0 where
  pub running : Bool
  pub turn_active : Bool

pub record Session : Type 0 where
  pub session_id : String
  pub cwd : Option String
  pub connection_id : Option ℕ
  pub backend : Option Backend
  pub detached_at : Option ℕ
  pub native_session_id : Option String
  pub seq : ℕ
  pub ring : RingBuffer
  -- the frames written to the durable log, if there is one
  pub log : Option (List Frame)
  -- the connection whose writer is hooked
  pub writer : Option ℕ
  pub finishing : Bool
  -- the connections whose writers watch, in the order of subscription
  pub watchers : List ℕ
  pub turns : ℕ
  pub last_model : Option String
  pub last_turn_at_ms : Option ℕ
  pub last_turn_usage : Dict Value
  pub cumulative_usage : Dict ℤ
  pub started_at_ms : Option ℕ
  pub title : Option (List ℕ)
  pub view_only : Bool
  pub permission_policy : Dict Value
  -- the keys of `pending_permissions`, and the calls that await
  pub pending_permissions : List String
  pub waiters : Dict Waiter
  pub remembered_permission : Option Kind
  pub needs_attention : Bool
  pub attention_reason : Option String
  pub has_notify : Bool
  pub profile_name : Option String
  pub attention_triggers : List String

-- What a method does besides changing the session, in order.
pub data Effect : Type 0 where
  -- a connection's writer took the frame
  send : ℕ → Frame → Effect
  -- `backend.close()` on a task of its own
  soft_kill : Effect
  -- `notify.fire` and `notify.clear`
  notify_fire : String → String → String → Detail → Effect
  notify_clear : String → Effect

-- What the code outside decides: which writers raise, whether the disk takes a line, the clock.
pub record Env : Type 0 where
  pub accepts : ℕ → Frame → Bool
  pub disk_ok : Frame → Bool
  pub now_ms : ℕ

abbrev pub Out : Type 0
Out = Session × List Effect

-- One part of a method, then the next.
infixl 10 ◌▸◌
abbrev pub ◌▸◌ : Out → (Session → Out) → Out
o ▸ f = ((f o.0).0, o.1 ++ (f o.0).1)

abbrev pub no_usage : Dict ℤ
no_usage =
    ("input_tokens", pos 0)
    ∷ ("output_tokens", pos 0)
    ∷ ("cache_read_input_tokens", pos 0)
    ∷ ("cache_creation_input_tokens", pos 0)
    ∷ []

-- `SessionTable.new_session` without its durable log.
unfoldable pub new_session : String → Option String → ℕ → ℕ → Session
unfolding init
new_session session_id cwd ring_buffer_size now_ms = record {
  session_id = session_id;
  cwd = cwd;
  connection_id = none;
  backend = none;
  detached_at = none;
  native_session_id = none;
  seq = 0;
  ring = init ring_buffer_size;
  log = none;
  writer = none;
  finishing = false;
  watchers = [];
  turns = 0;
  last_model = none;
  last_turn_at_ms = none;
  last_turn_usage = [];
  cumulative_usage = no_usage;
  started_at_ms = some now_ms;
  title = none;
  view_only = false;
  permission_policy = ("mode", text "relay") ∷ ("detached", text "stall") ∷ [];
  pending_permissions = [];
  waiters = [];
  remembered_permission = none;
  needs_attention = false;
  attention_reason = none;
  has_notify = false;
  profile_name = none;
  attention_triggers = blocked_triggers;
}
