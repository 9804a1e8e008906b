-- ===== src/Config.antt =====
-- blemees_agent/config.py: the merging of the configuration. A configuration is the dict of its
-- fields.
pub mod Precedence
use blemees_agent.Prelude.{
  if◌then◌else◌, is_some, any_of, Dict, lookup, insert, update_with, ◌-◌, ◌*◌, String, Bool, ◌||◌,
  Option, none, some, List, [], ◌∷◌, ◌==◌,
}
use blemees_agent.Prelude.Int.{ℤ, pos}
use blemees_agent.Value.{Value, text, int, array, object, nil, end}

-- The environment variables, and the fields that they set.
abbrev pub mapping : List (String × String)
mapping =
    ("BLEMEES_AGENTD_SOCKET", "socket_path")
    ∷ ("BLEMEES_AGENTD_CLAUDE", "claude_bin")
    ∷ ("BLEMEES_AGENTD_CODEX", "codex_bin")
    ∷ ("BLEMEES_AGENTD_AGENT", "agent_command")
    ∷ ("BLEMEES_AGENTD_LOG_LEVEL", "log_level")
    ∷ ("BLEMEES_AGENTD_LOG_FILE", "log_file")
    ∷ ("BLEMEES_AGENTD_MAX_LINE", "max_line_bytes")
    ∷ ("BLEMEES_AGENTD_IDLE_TIMEOUT", "idle_timeout_s")
    ∷ ("BLEMEES_AGENTD_RING_BUFFER_SIZE", "ring_buffer_size")
    ∷ ("BLEMEES_AGENTD_EVENT_LOG_DIR", "event_log_dir")
    ∷ ("BLEMEES_AGENTD_STATE_DIR", "state_dir")
    ∷ ("BLEMEES_AGENTD_SHUTDOWN_GRACE", "shutdown_grace_s")
    ∷ ("BLEMEES_AGENTD_NOTIFY_WEBHOOK_URL", "notify_webhook_url")
    ∷ ("BLEMEES_AGENTD_NOTIFY_FORMAT", "notify_webhook_format")
    ∷ []

-- The loop of `_env_overrides`: `environ` is `os.environ`.
unfoldable pub overrides_from :
    (String → Option String) → List (String × String) → Dict Value → Dict Value
overrides_from environ [] out = out
overrides_from environ ((name, field) ∷ more) out =
    overrides_from environ more
      (elim (environ name) [ none ↦ out | some v ↦ insert field (text v) out ])

unfoldable pub env_overrides : (String → Option String) → Dict Value
unfolding overrides_from
env_overrides environ = overrides_from environ mapping []

-- The arguments that were given, as `argparse` leaves them: those of the configuration itself.
unfoldable pub cli_values : Dict (Option Value) → Dict Value
cli_values [] = []
cli_values ((k, none) ∷ args) = cli_values args
cli_values ((k, some v) ∷ args) =
    let more = cli_values args in
    if k == "config_path" || k == "version" then more else (k, v) ∷ more

abbrev pub map_some : {A : Type 0} → {B : Type 0} → (A → B) → Option A → Option B
map_some f none = none
map_some f (some a) = some (f a)

-- d.setdefault(k, v)
abbrev pub set_default : String → Value → Dict Value → Dict Value
set_default k v d = if is_some (lookup k d) then d else insert k v d

-- The defaults of the fields of `Config`; `socket_path` has none.
abbrev pub defaults : Dict Value
defaults =
    ("claude_bin", text "claude")
    ∷ ("codex_bin", text "codex")
    ∷ ("agent_command", text "claude-agent-acp")
    ∷ ("agent_args", array nil)
    ∷ ("profiles", object end)
    ∷ ("log_level", text "info")
    ∷ ("log_file", Value.null)
    ∷ ("max_line_bytes", int (pos (16 * 1024 * 1024)))
    ∷ ("idle_timeout_s", int (pos 900))
    ∷ ("session_retention_days", int (pos 7))
    ∷ ("max_sessions_per_connection", int (pos 32))
    ∷ ("max_concurrent_sessions", int (pos 64))
    ∷ ("stderr_rate_lines", int (pos 50))
    ∷ ("stderr_rate_window_s", int (pos 10))
    ∷ ("ring_buffer_size", int (pos 1024))
    ∷ ("event_log_dir", Value.null)
    ∷ ("state_dir", Value.null)
    ∷ ("shutdown_grace_s", int (pos 30))
    ∷ ("notify_webhook_url", Value.null)
    ∷ ("notify_webhook_format", text "json")
    ∷ []

abbrev pub int_fields : List String
int_fields =
    "max_line_bytes" ∷ "idle_timeout_s" ∷ "session_retention_days" ∷ "max_sessions_per_connection"
    ∷ "max_concurrent_sessions" ∷ "stderr_rate_lines" ∷ "stderr_rate_window_s" ∷ "ring_buffer_size"
    ∷ "shutdown_grace_s" ∷ []

abbrev pub is_int : String → Bool
is_int k = any_of (λ f. f == k) int_fields

abbrev pub is_field : String → Bool
is_field k = k == "socket_path" || is_some (lookup k defaults)

-- The values of the file, the environment and the command line, in this order.
unfoldable pub merged :
    Dict Value → (String → Option String) → Dict (Option Value) → String → String → Dict Value
merged file environ args socket state = set_default "state_dir" (text state) (
    set_default "socket_path" (text socket)
      (update_with (update_with (update_with [] file) (env_overrides environ)) (cli_values args)))

-- `to_int` is the built-in `int`, which has no value where it raises.
module _ (to_int : Value → Option ℤ) where
  -- `_coerce`
  unfoldable pub coerce : String → Value → Option Value
  coerce k Value.null = some Value.null
  coerce k v = if is_int k then map_some int (to_int v) else some v

  -- The loop of `load` that fills `cleaned`.
  unfoldable pub clean : Dict Value → Option (Dict Value)
  unfolding coerce
  clean [] = some []
  clean ((k, v) ∷ d) =
      let rest = clean d in
      if is_field k
      then elim (coerce k v) [ none ↦ none | some w ↦ map_some (λ c. (k, w) ∷ c) rest ]
      else rest

  -- `load`, with what the TOML file holds and the two default paths.
  unfoldable pub load :
      Dict Value
      → (String → Option String)
      → Dict (Option Value)
      → String
      → String
      → Option (Dict Value)
  unfolding clean merged
  load file environ args socket state =
      map_some (update_with defaults) (clean (merged file environ args socket state))
