-- ===== src/Daemon/Views.antt =====
-- The handlers of blemees_agent/daemon.py that only look: the liveness check, and the counts of
-- the status snapshot.
use blemees_agent.Prelude.{Option, [], is_some, keep_if, length, none, some, values, ℕ, ◌-◌, ◌∷◌}
use blemees_agent.Value.{Value}
use blemees_agent.Protocol.Messages.{PingMessage}
use blemees_agent.Table.{iter_with_active_turn}
use blemees_agent.Daemon.{pong, reply, Daemon, Handled, finished}

-- `_emit_frame` leaves out what is null.
abbrev pub unless_null : Option Value → Option Value
unless_null (some Value.null) = none
unless_null v = v

-- `_handle_ping`: the `data` comes back as it was sent, unless it is null.
unfoldable pub handle_ping : ℕ → PingMessage → Daemon → Handled
handle_ping c msg d = finished d (reply c (pong msg.id (unless_null msg.payload)) ∷ [])

-- The `sessions` of `_status_snapshot`, but for `by_backend`.
pub record SessionCounts : Type 0 where
  pub total : ℕ
  pub attached : ℕ
  pub detached : ℕ
  pub active_turns : ℕ

unfoldable pub session_counts : Daemon → SessionCounts
session_counts d =
    let sessions = values d.table.sessions in
    let total = length sessions in
    let attached = length (keep_if (λ s. is_some s.connection_id) sessions) in
    record {
      total = total;
      attached = attached;
      detached = total - attached;
      active_turns = length (iter_with_active_turn d.table);
    }
