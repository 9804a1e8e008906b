-- ===== src/Session/Summary.antt =====
-- What a session tells of itself: `live_summary` and `usage_snapshot` of blemees_agent/session.py.
use blemees_agent.Prelude.{
  nat_eq, if◌then◌else◌, is_some, or_else, from_option, Dict, ℕ, String, Bool, false, ◌&&◌, Option,
  none, some, List, [], ◌∷◌, ◌++◌, ◌==◌,
}
use blemees_agent.Prelude.Int.{ℤ, pos, ◌+ℤ◌}
use blemees_agent.Value.{Value, text, int, bool, object}
use blemees_agent.Errors.{Result, ok, err, type_error, ◌>>=◌}
use blemees_agent.Registry.{to_fields, get_true}
use blemees_agent.Session.{Session}
use blemees_agent.Session.Restore.{optional, ints}

abbrev pub of_ms : Option ℕ → Value
of_ms n = optional (λ m. int (pos m)) n

-- `backend is not None and backend.running and backend.turn_active`
abbrev pub turn_active : Session → Bool
turn_active s = elim s.backend [ none ↦ false | some b ↦ b.running && b.turn_active ]

-- Entries that are there only where something is known, as where it is true.
abbrev pub known : String → Option Value → Dict Value
known k none = []
known k (some v) = (k, v) ∷ []

abbrev pub true_text : Option String → Option Value
true_text none = none
true_text (some s) = if s == "" then none else some (text s)

abbrev pub true_ms : Option ℕ → Option ℕ
true_ms none = none
true_ms (some n) = if nat_eq n 0 then none else some n

abbrev pub ms_value : Option ℕ → Option Value
ms_value none = none
ms_value (some n) = some (int (pos n))

-- `live_summary`: `show` is the text of a title's characters.
module _ (show : List ℕ → String) where
  abbrev pub true_title : Option (List ℕ) → Option Value
  true_title none = none
  true_title (some []) = none
  true_title (some (c ∷ cs)) = some (text (show (c ∷ cs)))

  -- Every session is made with the backend `acp`.
  unfoldable pub live_summary : Option ℕ → Session → Dict Value
  live_summary owner_pid s =
      let owner = if is_some s.connection_id then ms_value owner_pid else none in
      ("session_id", text s.session_id)
        ∷ ("backend", text "acp")
        ∷ ("attached", bool (is_some s.connection_id))
        ∷ ("last_seq", int (pos s.seq))
        ∷ ("turn_active", bool (turn_active s))
        ∷ known "cwd" (true_text s.cwd)
      ++ known "model" (true_text s.last_model)
      ++ known "title" (true_title s.title)
      ++ known "started_at_ms" (ms_value s.started_at_ms)
      ++ known "last_active_at_ms" (ms_value (or_else (true_ms s.last_turn_at_ms) s.started_at_ms))
      ++ known "owner_pid" owner

-- `to_int` is the built-in `int`, which has no value where it raises.
module _ (to_int : Value → Option ℤ) where
  -- int(usage.get(key, 0) or 0)
  abbrev pub count_of : String → Dict Value → Result ℤ
  count_of key usage = elim (get_true key usage) [
    | none ↦ ok (pos 0)
    | some v ↦ elim (to_int v) [ none ↦ err type_error | some n ↦ ok n ]
  ]

  unfoldable pub context_tokens : Dict Value → Result ℤ
  context_tokens usage = do
    a ← count_of "input_tokens" usage
    b ← count_of "cache_read_input_tokens" usage
    c ← count_of "cache_creation_input_tokens" usage
    ok (a +ℤ b +ℤ c)

  -- `native_session_id or session_id`
  abbrev pub native_or_own : Session → Value
  native_or_own s = from_option (text s.session_id) (true_text s.native_session_id)

  unfoldable pub usage_snapshot : Bool → Bool → Session → Result (Dict Value)
  unfolding context_tokens
  usage_snapshot attached subprocess_running s = do
    tokens ← context_tokens s.last_turn_usage
    ok (
        ("session_id", text s.session_id)
        ∷ ("backend", text "acp")
        ∷ ("native_session_id", native_or_own s)
        ∷ ("model", optional text s.last_model)
        ∷ ("cwd", optional text s.cwd)
        ∷ ("turns", int (pos s.turns))
        ∷ ("last_turn_at_ms", of_ms s.last_turn_at_ms)
        ∷ ("last_turn_usage", object (to_fields s.last_turn_usage))
        ∷ ("cumulative_usage", object (to_fields (ints s.cumulative_usage)))
        ∷ ("context_tokens", int tokens)
        ∷ ("attached", bool attached)
        ∷ ("subprocess_running", bool subprocess_running)
        ∷ ("last_seq", int (pos s.seq))
        ∷ [])
