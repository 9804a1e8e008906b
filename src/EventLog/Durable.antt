-- ===== src/EventLog/Durable.antt =====
-- `DurableEventLog` of blemees_agent/event_log.py. The file is its bytes. `json.dumps` with
-- `.encode("utf-8")` and `json.loads` with `.decode("utf-8")` are arguments.
pub mod Tail
use blemees_agent.Prelude.{
  ltb, leb, nat_eq, if◌then◌else◌, from_option, length, drop, take_last, ℕ, zero, suc, ◌+◌, ◌-◌,
  ◌*◌, Bool, true, false, ◌&&◌, ◌||◌, Option, none, some, List, [], ◌∷◌, ◌++◌,
}
use Prim.Native.Nat.{◌*◌, min}
use blemees_agent.EventLog.{Frame}

abbrev pub Bytes : Type 0
Bytes = List ℕ

abbrev pub newline : ℕ
newline = 10

-- The JSON codec: `loads` has no value on bytes that are no UTF-8, no JSON, or no object.
pub record Codec : Type 0 where
  pub dumps : Frame → Bytes
  pub loads : Bytes → Option Frame

-- The file at the log's path, `none` where there is none.
pub record DurableEventLog : Type 0 where
  pub file : Option Bytes
  pub is_open : Bool

-- `open`: mode "a" creates the file.
unfoldable pub open_log : DurableEventLog → DurableEventLog
open_log l = if l.is_open then l else record { file = some (from_option [] l.file); is_open = true }

-- The whitespace that `bytes.strip` removes.
unfoldable pub is_space : ℕ → Bool
is_space c = nat_eq c 32 || (leb 9 c && leb c 13)

unfoldable pub lstrip : Bytes → Bytes
unfolding is_space
lstrip [] = []
lstrip (c ∷ cs) = if is_space c then lstrip cs else c ∷ cs

unfoldable pub rstrip : Bytes → Bytes
unfolding is_space
rstrip [] = []
rstrip (c ∷ cs) = elim (rstrip cs) [ [] ↦ if is_space c then [] else c ∷ [] | d ∷ ds ↦ c ∷ d ∷ ds ]

-- `raw.strip()`
unfoldable pub strip : Bytes → Bytes
unfolding lstrip rstrip
strip raw = rstrip (lstrip raw)

-- The first line, with the byte in front of it.
abbrev pub onto_first : ℕ → List Bytes → List Bytes
onto_first c [] = (c ∷ []) ∷ []
onto_first c (line ∷ lines) = (c ∷ line) ∷ lines

-- `chunk.split(b"\n")`: one line more than there are newlines.
unfoldable pub split_lines : Bytes → List Bytes
split_lines [] = [] ∷ []
split_lines (c ∷ cs) =
    if nat_eq c newline then [] ∷ split_lines cs else onto_first c (split_lines cs)

abbrev pub read_limit : ℕ
read_limit = 256 * 1024

-- `xs[-k:]`, which is all of `xs` for a `k` of 0
abbrev pub slice_last {ℓ} : {A : Type ℓ} → ℕ → List A → List A
slice_last zero xs = xs
slice_last (suc k) xs = take_last (suc k) xs

module _ (codec : Codec) where
  unfoldable pub append : DurableEventLog → Frame → DurableEventLog
  unfolding open_log
  append l frame =
      let o = open_log l in
      record o { file = some (from_option [] o.file ++ codec.dumps frame ++ newline ∷ []) }

  -- One round of the loop of `tail`: `none` for a blank or bad line.
  unfoldable pub parse_line : Bytes → Option Frame
  unfolding strip
  parse_line raw = elim (strip raw) [ [] ↦ none | c ∷ cs ↦ codec.loads (c ∷ cs) ]

  unfoldable pub parse_lines : List Bytes → List Frame
  parse_lines [] = []
  parse_lines (raw ∷ lines) = elim (parse_line raw) [
    | none ↦ parse_lines lines
    | some frame ↦ frame ∷ parse_lines lines
  ]

  -- The lines of the last `limit` bytes; the first is dropped if the file is longer.
  unfoldable pub tail_lines : ℕ → Bytes → List Bytes
  unfolding split_lines
  tail_lines limit bytes =
      let read_span = min (length bytes) limit in
      let lines = split_lines (drop (length bytes - read_span) bytes) in
      if ltb read_span (length bytes) then drop 1 lines else lines

  unfoldable pub tail : DurableEventLog → ℕ → List Frame
  unfolding parse_lines tail_lines
  tail l n = elim l.file [
    | none ↦ []
    | some bytes ↦ slice_last n (parse_lines (slice_last (n * 2) (tail_lines read_limit bytes)))
  ]

-- `close`
unfoldable pub close : DurableEventLog → DurableEventLog
close l = record l { is_open = false }

-- `unlink`: closes first. A file that cannot be removed is left (`removable` is false).
unfoldable pub unlink : Bool → DurableEventLog → DurableEventLog
unfolding close
unlink removable l = let c = close l in if removable then record c { file = none } else c
