-- ===== src/Protocol.antt =====
-- blemees_agent/protocol.py: the checks of a frame's fields, and `parse_line`. The messages and
-- their parsers stand in the children.
pub mod Messages
pub mod Parse
use blemees_agent.Prelude.{
  ltb, leb, nat_eq, if◌then◌else◌, is_some, codes, length, take, keep_if, all_of, any_of, Dict,
  lookup, keys, ℕ, ◌+◌, ◌-◌, ◌*◌, String, Bool, true, false, not, ◌&&◌, ◌||◌, Option, none, some,
  List, [], ◌∷◌, ◌++◌, ◌==◌,
}
use blemees_agent.Errors.{
  Reason, Failure, Result, ok, err, protocol_error, oversize, invalid_utf8, empty_frame,
  invalid_json, not_an_object, missing_type, unexpected_field, bad_field, missing_field,
  invalid_session_id, invalid_name, ◌>>=◌, ◌>>◌, guard,
}
use blemees_agent.Value.{Value, text, null, as_text, as_object}

abbrev pub refuse {ℓ} : {A : Type ℓ} → Reason → Result A
refuse r = err (protocol_error r)

abbrev pub default_max_line_bytes : ℕ
default_max_line_bytes = 16 * 1024 * 1024

-- `text.rstrip("\r\n")`
unfoldable pub strip_newlines : List ℕ → List ℕ
strip_newlines [] = []
strip_newlines (c ∷ cs) = elim (strip_newlines cs) [
  | [] ↦ if nat_eq c 13 || nat_eq c 10 then [] else c ∷ []
  | d ∷ ds ↦ c ∷ d ∷ ds
]

-- `bytes.decode("utf-8")` gives code points, `json.loads` a value; `none` where they raise.
pub record Decoder : Type 0 where
  pub decode : List ℕ → Option (List ℕ)
  pub loads : List ℕ → Option Value

unfoldable pub require_object : Option Value → Result (Dict Value)
require_object none = refuse invalid_json
require_object (some v) = elim (as_object v) [ none ↦ refuse not_an_object | some d ↦ ok d ]

unfoldable pub require_type : Dict Value → Result (Dict Value)
require_type obj = elim (lookup "type" obj) [
  | none ↦ refuse missing_type
  | some v ↦ if is_some (as_text v) then ok obj else refuse missing_type
]

unfoldable pub decode_text : Option (List ℕ) → Result (List ℕ)
decode_text none = refuse invalid_utf8
decode_text (some t) = ok t

unfoldable pub require_text : List ℕ → Result (List ℕ)
require_text [] = refuse empty_frame
require_text (c ∷ cs) = ok (c ∷ cs)

unfoldable pub parse_line : Decoder → List ℕ → ℕ → Result (Dict Value)
parse_line decoder line max_bytes = do
  guard (leb (length line) max_bytes) (oversize max_bytes)
  decoded ← decode_text (decoder.decode line)
  stripped ← require_text (strip_newlines decoded)
  obj ← require_object (decoder.loads stripped)
  require_type obj

-- The least text by Python's order, which compares code points.
unfoldable pub codes_lt : List ℕ → List ℕ → Bool
codes_lt [] [] = false
codes_lt [] (d ∷ ds) = true
codes_lt (c ∷ cs) [] = false
codes_lt (c ∷ cs) (d ∷ ds) = let rest = codes_lt cs ds in if nat_eq c d then rest else ltb c d

unfoldable pub least : String → List String → String
unfolding codes_lt
least k [] = k
least k (j ∷ js) = least (if codes_lt (codes j) (codes k) then j else k) js

abbrev pub has : List String → String → Bool
has allowed k = any_of (λ j. j == k) allowed

-- `next(iter(sorted(extra)))` of a set that is not empty
unfoldable pub reject_extra : List String → Result (Unit {0})
unfolding least
reject_extra [] = ok tt
reject_extra (k ∷ extra) = refuse (unexpected_field (least k extra))

-- `_reject_extra_keys`
unfoldable pub reject_extra_keys : Dict Value → List String → Result (Unit {0})
reject_extra_keys obj allowed = reject_extra (keep_if (λ k. not (has allowed k)) (keys obj))

-- `obj.get(key)`, where a key that is absent and one that is null read alike
unfoldable pub get : String → Dict Value → Option Value
get key obj = elim (lookup key obj) [ none ↦ none | some null ↦ none | some v ↦ some v ]

-- `_opt_str_id`, and the same test of other optional texts
unfoldable pub opt_text : String → Dict Value → Result (Option String)
opt_text key obj = elim (get key obj) [
  | none ↦ ok none
  | some v ↦ elim (as_text v) [ none ↦ refuse (bad_field key) | some s ↦ ok (some s) ]
]

abbrev pub opt_str_id : Dict Value → Result (Option String)
opt_str_id obj = opt_text "id" obj

-- An optional text that may not be empty where it is set.
unfoldable pub opt_nonempty : String → Dict Value → Result (Option String)
opt_nonempty key obj = elim (get key obj) [
  | none ↦ ok none
  | some v ↦ elim (as_text v) [
    | none ↦ refuse (bad_field key)
    | some s ↦ if s == "" then refuse (bad_field key) else ok (some s)
  ]
]

-- A text that must be there and not be empty.
unfoldable pub require_nonempty : String → Dict Value → Result String
require_nonempty key obj = elim (get key obj) [
  | none ↦ refuse (missing_field key)
  | some v ↦ elim (as_text v) [
    | none ↦ refuse (missing_field key)
    | some s ↦ if s == "" then refuse (missing_field key) else ok s
  ]
]

-- [A-Za-z0-9_-]
unfoldable pub is_name_char : ℕ → Bool
is_name_char c =
    (leb b'A' c && leb c b'Z')
    || (leb b'a' c && leb c b'z')
    || (leb b'0' c && leb c b'9')
    || nat_eq c b'_'
    || nat_eq c b'-'

-- `re.compile(r"[A-Za-z0-9_-]{1,n}").fullmatch`
unfoldable pub matches_name : ℕ → List ℕ → Bool
matches_name n cs = leb 1 (length cs) && leb (length cs) n && all_of is_name_char cs

abbrev pub ellipsis : ℕ
ellipsis = 0x2026

-- At most 32 characters of a refused id are echoed.
unfoldable pub shown_id : List ℕ → List ℕ
shown_id cs = if leb (length cs) 32 then cs else take 32 cs ++ ellipsis ∷ []

-- `_require_session_id`
unfoldable pub require_session_id : Dict Value → Result String
require_session_id obj = do
  s ← require_nonempty "session_id" obj
  guard (matches_name 128 (codes s)) (protocol_error (invalid_session_id (shown_id (codes s))))
  ok s

unfoldable pub is_valid_name : String → Bool
is_valid_name name = matches_name 64 (codes name)

-- `_require_valid_name`
unfoldable pub require_valid_name : String → Result String
require_valid_name name = do
  guard (is_valid_name name) (protocol_error (invalid_name name))
  ok name
