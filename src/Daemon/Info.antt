-- ===== src/Daemon/Info.antt =====
-- `_handle_session_info` of blemees_agent/daemon.py: what is known of one session, live or recorded.
use blemees_agent.Prelude.{
  if◌then◌else◌, is_some, from_option, Dict, lookup, insert, ℕ, String, Bool, true, false, Option,
  none, some, [], ◌∷◌,
}
use blemees_agent.Prelude.Int.{ℤ, pos}
use blemees_agent.Value.{Value, int, text, bool, truthy}
use blemees_agent.Errors.{session_unknown, ok, err}
use blemees_agent.Protocol.Messages.{SessionInfoMessage}
use blemees_agent.Registry.{get_record}
use blemees_agent.Session.{Session}
use blemees_agent.Session.Restore.{optional}
use blemees_agent.Session.Summary.{usage_snapshot}
use blemees_agent.Daemon.{
  Daemon, Handled, info_reply, error_reply, reply, finished, raises, try_get, is_running,
}

-- rec.get(key)
abbrev pub value_at : String → Dict Value → Value
value_at key rec = from_option Value.null (lookup key rec)

abbrev pub is_null : Value → Bool
is_null Value.null = true
is_null _ = false

-- `_emit_frame` leaves out what is null.
unfoldable pub without_nulls : Dict Value → Dict Value
without_nulls [] = []
without_nulls ((k, v) ∷ d) = let rest = without_nulls d in if is_null v then rest else (k, v) ∷ rest

-- frame.setdefault(key, rec.get(key))
abbrev pub default_from : String → Dict Value → Dict Value → Dict Value
default_from key rec frame =
    if is_some (lookup key frame) then frame else insert key (value_at key rec) frame

abbrev pub with_record : Option (Dict Value) → Dict Value → Dict Value
with_record none frame = frame
with_record (some rec) frame = default_from "agent" rec (default_from "profile" rec frame)

-- The frame of a session that is in the table.
unfoldable pub live_info : Option (Dict Value) → Session → Dict Value → Dict Value
live_info rec s snapshot = insert "view_only" (bool s.view_only) (
    insert "attention_reason" (optional text s.attention_reason)
      (insert "needs_attention" (bool s.needs_attention) (with_record rec snapshot)))

-- The frame of a session that only the registry knows.
unfoldable pub recorded_info : String → Dict Value → Dict Value
recorded_info id rec =
    ("session_id", text id)
    ∷ ("profile", value_at "profile" rec)
    ∷ ("agent", value_at "agent" rec)
    ∷ ("model", value_at "model" rec)
    ∷ ("cwd", value_at "cwd" rec)
    ∷ ("turns", from_option (int (pos 0)) (lookup "turns" rec))
    ∷ ("last_turn_at_ms", value_at "last_active_at_ms" rec)
    ∷ ("attached", bool false)
    ∷ ("subprocess_running", bool false)
    ∷ ("view_only", bool (truthy (value_at "view_only" rec)))
    ∷ ("needs_attention", bool false)
    ∷ ("attention_reason", Value.null)
    ∷ []

-- `_handle_session_info`. A count of the usage that `int` does not take is an exception.
unfoldable pub handle_session_info : (Value → Option ℤ) → ℕ → SessionInfoMessage → Daemon → Handled
unfolding live_info recorded_info without_nulls
handle_session_info to_int c msg d =
    let id = msg.session_id in
    let tell =
      λ (frame : Dict Value). finished d (reply c (info_reply msg.id (without_nulls frame)) ∷ []) in
    let rec = get_record id d.registry in
    elim (try_get id d) [
      | some s ↦ elim (usage_snapshot to_int (is_some s.connection_id) (is_running s.backend) s) [
        | err e ↦ raises d [] e
        | ok snapshot ↦ tell (live_info rec s snapshot)
      ]
      | none ↦ elim rec [
        | some fields ↦ tell (recorded_info id fields)
        | none ↦ finished d (reply c (error_reply session_unknown msg.id (some id)) ∷ [])
      ]
    ]
