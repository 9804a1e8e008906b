-- ===== src/Tests/Records.antt =====
-- The wire, the logs and the profiles (blemees_agent/protocol.py, event_log.py, supervisor.py).
use blemees_agent.Prelude.{
  is_some, take_last, Dict, lookup, ℕ, ◌+◌, ◌-◌, ◌≡◌, refl, true, Option, none, some, List, [], ◌∷◌,
  arith,
}
use blemees_agent.Value.{Value, text}
use blemees_agent.EventLog.{Frame, stderr, seq_of}
use blemees_agent.EventLog.Durable.{Bytes, Codec, tail}
use blemees_agent.EventLog.Durable.Tail.{IsJson, append_all, fresh, tail-append_all}
use blemees_agent.Protocol.{
  reject_extra_keys, reject_extra, require_session_id, require_nonempty, get, matches_name,
  is_name_char,
}
use blemees_agent.Protocol.Parse.{parse_cancel}
use blemees_agent.Protocol.Parse.Ids.{named_cancel, parsed_id, IsPathSafe, session_id-IsPathSafe}
use blemees_agent.Registry.{Registry, save, load}
use blemees_agent.Registry.Restart.{restarted, load-save}
use blemees_agent.Supervisor.{Supervisor, new_supervisor}
use blemees_agent.Supervisor.Profiles.{Config, synthesised, profiles_from_config, add_profiles}
use blemees_agent.Supervisor.Crud.Managed.{
  Request, create, update, delete, restore, handle_all, handle_all-managed,
}

abbrev numbered : ℕ → Frame
numbered n = record { session_id = some "s-1"; seq = some n; event = stderr "line" }

-- A frame's number, past the line feed, stands for the frame.
abbrev number_of : Bytes → Option Frame
number_of (b ∷ n ∷ bs) = some (numbered (n - 11))
number_of _ = none

abbrev by_number : Codec
by_number = record { dumps = λ f. b'{' ∷ (seq_of f + 11) ∷ b'}' ∷ []; loads = number_of }

by_number-IsJson : IsJson by_number
by_number-IsJson = record {
  body = λ f. (seq_of f + 11) ∷ [];
  braces = λ f. refl;
  one_line = λ f. (ground arith, tt);
}

abbrev written : List Frame
written = numbered 1 ∷ numbered 2 ∷ numbered 3 ∷ []

tail-append_all_example :
    tail by_number (append_all by_number fresh written) 2 ≡ take_last 2 written
tail-append_all_example =
    tail-append_all by_number by_number-IsJson 2 written (refl, (refl, (refl, tt))) (omega arith)
      (omega arith)

abbrev cancel_frame : Dict Value
cancel_frame = ("type", text "agent.cancel") ∷ ("session_id", text "s-1") ∷ []

session_id-IsPathSafe_example : IsPathSafe 128 "s-1"
unfolding parsed_id parse_cancel reject_extra_keys reject_extra require_session_id require_nonempty
    get lookup matches_name is_name_char
session_id-IsPathSafe_example = session_id-IsPathSafe named_cancel cancel_frame "s-1" refl

abbrev config : Config
config = record {
  agent_command = "claude-agent-acp";
  agent_args = [];
  profiles = [];
  notify_webhook_url = none;
  notify_webhook_format = "json";
}

abbrev started : Supervisor
started = record {
  config = config;
  registry = none;
  profiles = ("default", synthesised config) ∷ [];
  static_names = "default" ∷ [];
  processes = [];
  idle_since = [];
  closed = [];
}

abbrev requests : List Request
requests =
    delete "default"
    ∷ create "mine" (("model", text "opus") ∷ [])
    ∷ update "default" []
    ∷ delete "mine"
    ∷ restore
    ∷ []

handle_all-managed_example :
    (is_some (lookup "default" started.profiles) ≡ true)
    × (lookup "default" (handle_all (λ c. true) requests started).profiles
        ≡ lookup "default" started.profiles)
    × ((handle_all (λ c. true) requests started).static_names ≡ started.static_names)
unfolding new_supervisor profiles_from_config add_profiles
handle_all-managed_example =
    handle_all-managed (λ c. true) config none started requests "default" refl refl

abbrev kept_profiles : Registry
kept_profiles = record {
  persistent = true;
  writable = true;
  file = none;
  records = [];
  profiles = ("mine", ("model", text "opus") ∷ ("name", text "mine") ∷ []) ∷ [];
}

load-save_example :
    lookup "mine" (load (restarted (save kept_profiles))).profiles
    ≡ lookup "mine" kept_profiles.profiles
unfolding lookup get
load-save_example = load-save kept_profiles "mine" (refl, refl, tt) refl refl
