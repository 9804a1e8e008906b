-- ===== src/Session/Restore.antt =====
-- What a session takes over from the files of an earlier run: `enable_durable_log` and the usage
-- sidecar of blemees_agent/session.py.
pub mod Sidecar
pub mod Seed
use blemees_agent.Prelude.{
  ltb, if◌then◌else◌, or_else, from_option, Dict, insert, ℕ, String, Option, none, some, List, [],
  ◌∷◌,
}
use blemees_agent.Prelude.Int.{ℤ, pos}
use blemees_agent.Value.{Value, text, int, object, as_text, as_int, as_object}
use blemees_agent.EventLog.{Frame}
use blemees_agent.EventLog.Ring.{extend, latest_seq}
use blemees_agent.Protocol.{get}
use blemees_agent.Registry.{to_fields}
use blemees_agent.Session.{Session}

-- The ring is seeded from the tail of the log, and the numbers go on from there.
unfoldable pub seed : List Frame → Session → Session
unfolding extend latest_seq
seed [] s = s
seed (f ∷ prior) s =
    let ring = extend s.ring (f ∷ prior) in
    let latest = from_option 0 (latest_seq ring) in
    record s { ring = ring; seq = if ltb s.seq latest then latest else s.seq }

abbrev pub optional {ℓ} : {A : Type ℓ} → (A → Value) → Option A → Value
optional f none = Value.null
optional f (some a) = f a

abbrev pub ints : Dict ℤ → Dict Value
ints [] = []
ints ((k, n) ∷ d) = (k, int n) ∷ ints d

-- `_save_usage_sidecar`: the JSON value that the file then holds. Nothing but the file itself sets `rollout_path`,
-- which is left out.
unfoldable pub save_usage_sidecar : Session → Dict Value
save_usage_sidecar s =
    ("session_id", text s.session_id)
    ∷ ("model", optional text s.last_model)
    ∷ ("turns", int (pos s.turns))
    ∷ ("last_turn_at_ms", optional (λ n. int (pos n)) s.last_turn_at_ms)
    ∷ ("last_turn_usage", object (to_fields s.last_turn_usage))
    ∷ ("cumulative_usage", object (to_fields (ints s.cumulative_usage)))
    ∷ ("native_session_id", optional text s.native_session_id)
    ∷ ("rollout_path", Value.null)
    ∷ []

-- `isinstance(v, int)`. A negative count, which no save writes, is left out.
abbrev pub as_count : Value → Option ℕ
as_count v = elim (as_int v) [ some (pos n) ↦ some n | _ ↦ none ]

abbrev pub field_as {ℓ} : {A : Type ℓ} → (Value → Option A) → String → Dict Value → Option A
field_as f key fields = elim (get key fields) [ none ↦ none | some v ↦ f v ]

-- The totals of the file replace those of the same name.
unfoldable pub assign_totals : Dict Value → Dict ℤ → Dict ℤ
assign_totals [] total = total
assign_totals ((k, v) ∷ usage) total =
    assign_totals usage (elim (as_int v) [ none ↦ total | some n ↦ insert k n total ])

-- `_load_usage_sidecar`, with the JSON value of the file, where there is one that parses.
unfoldable pub load_usage_sidecar : Option Value → Session → Session
unfolding assign_totals
load_usage_sidecar none s = s
load_usage_sidecar (some file) s = elim (as_object file) [
  | none ↦ s
  | some fields ↦ record s {
    last_model = or_else (field_as as_text "model" fields) s.last_model;
    turns = from_option s.turns (field_as as_count "turns" fields);
    last_turn_at_ms = or_else (field_as as_count "last_turn_at_ms" fields) s.last_turn_at_ms;
    last_turn_usage = from_option s.last_turn_usage (field_as as_object "last_turn_usage" fields);
    cumulative_usage =
        assign_totals (from_option [] (field_as as_object "cumulative_usage" fields))
          s.cumulative_usage;
    native_session_id = or_else (field_as as_text "native_session_id" fields) s.native_session_id;
  }
]

-- `enable_durable_log`: `read` is what `log.tail` gives, if it does not raise, and `file` the frames
-- that are in the log. `log.open` does not raise.
unfoldable pub enable_durable_log :
    (ℕ → Option (List Frame)) → List Frame → Option Value → Session → Session
unfolding seed load_usage_sidecar
enable_durable_log read file sidecar s =
    load_usage_sidecar sidecar
      (record (seed (from_option [] (read s.ring.capacity)) s) { log = some file })
