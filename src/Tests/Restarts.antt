-- ===== src/Tests/Restarts.antt =====
-- A session that goes on after a restart (blemees_agent/session.py).
use blemees_agent.Prelude.{drop, lookup, ℕ, refl, Option, none, some, List, [], ◌∷◌, arith}
use blemees_agent.Prelude.Int.{pos}
use blemees_agent.Value.{int, object}
use blemees_agent.EventLog.{Frame, stderr}
use blemees_agent.Registry.{to_fields}
use blemees_agent.Session.{Session, new_session}
use blemees_agent.Session.Events.Sequence.{IsSequenced}
use blemees_agent.Session.Restore.{seed, save_usage_sidecar, load_usage_sidecar, enable_durable_log}
use blemees_agent.Session.Restore.Seed.{seed-IsSequenced, enable_durable_log-IsSequenced}
use blemees_agent.Session.Restore.Sidecar.{IsRestored, load-save_usage_sidecar}

abbrev numbered : ℕ → Frame
numbered n = record { session_id = some "s-1"; seq = some n; event = stderr "line" }

abbrev history : List Frame
history = numbered 1 ∷ numbered 2 ∷ numbered 4 ∷ []

abbrev old : Session
old = seed history (new_session "s-1" none 2 5)

old-IsSequenced : IsSequenced old history
old-IsSequenced =
    seed-IsSequenced "s-1" none 2 5 history (omega arith, (omega arith, (omega arith, tt)))
      (refl, (refl, (refl, tt)))

abbrev last_two : ℕ → Option (List Frame)
last_two n = some (drop 1 history)

enable_durable_log-IsSequenced_example :
    IsSequenced
      (enable_durable_log last_two history none (new_session "s-1" none 2 9))
      (drop 1 history)
enable_durable_log-IsSequenced_example =
    enable_durable_log-IsSequenced "s-1" none 2 9 1 last_two history history none old
      old-IsSequenced refl

abbrev used : Session
used = record (new_session "s-1" none 2 5) {
  turns = 3;
  last_model = some "opus";
  last_turn_at_ms = some 7;
  last_turn_usage = ("input_tokens", int (pos 5)) ∷ [];
  cumulative_usage = ("input_tokens", pos 9) ∷ ("thoughts", pos 2) ∷ [];
}

load-save_usage_sidecar_example : IsRestored used (new_session "s-1" none 2 9) (
    load_usage_sidecar
      (some (object (to_fields (save_usage_sidecar used))))
      (new_session "s-1" none 2 9))
unfolding lookup
load-save_usage_sidecar_example =
    load-save_usage_sidecar used (new_session "s-1" none 2 9) (refl, (refl, tt))
