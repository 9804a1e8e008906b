-- ===== src/Session/Usage.antt =====
-- The usage accumulator of blemees_agent/session.py.
use blemees_agent.Prelude.{from_option, Dict, lookup, insert, ℕ, ◌+◌, Option, none, some, [], ◌∷◌}
use blemees_agent.Prelude.Int.{ℤ, pos, ◌+ℤ◌}
use blemees_agent.Value.{Value, as_int}
use blemees_agent.EventLog.{Event, result}
use blemees_agent.Session.{Session}

-- cumulative_usage[key] = cumulative_usage.get(key, 0) + value
unfoldable pub add_usage : Dict ℤ → Dict Value → Dict ℤ
add_usage total [] = total
add_usage total ((k, v) ∷ usage) =
    add_usage
      (elim (as_int v) [
        | none ↦ total
        | some n ↦ insert k (from_option (pos 0) (lookup k total) +ℤ n) total
      ])
      usage

-- A turn without usage still counts.
unfoldable pub count_turn : ℕ → Option (Dict Value) → Session → Session
unfolding add_usage
count_turn now_ms none s = record s { turns = s.turns + 1; last_turn_at_ms = some now_ms }
count_turn now_ms (some usage) s = record s {
  turns = s.turns + 1;
  last_turn_at_ms = some now_ms;
  last_turn_usage = usage;
  cumulative_usage = add_usage s.cumulative_usage usage;
}

-- `_update_usage_from_frame`; the sidecar file is in Session/Restore.
unfoldable pub update_usage : ℕ → Event → Session → Session
unfolding count_turn
update_usage now_ms (result stop usage) s = count_turn now_ms usage s
update_usage now_ms _ s = s
