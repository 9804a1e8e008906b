-- ===== src/Tests/Settings.antt =====
-- A configuration merged from a file, the environment and the command line
-- (blemees_agent/config.py).
use blemees_agent.Prelude.{
  if◌then◌else◌, Bool-cases, or_else, Dict, lookup, String, ◌≡◌, refl, inl, inr, true, false,
  Option, none, some, [], ◌∷◌, ◌==◌,
}
use blemees_agent.Prelude.Int.{ℤ, pos}
use blemees_agent.Value.{Value, text, int, bool}
use blemees_agent.Config.{cli_values, map_some, defaults, is_int, is_field, coerce, load}
use blemees_agent.Config.Precedence.{source_of, coerced, load-precedence}

-- An `int` that converts everything.
abbrev number : Value → ℤ
number (int n) = n
number (text s) = pos (if s == "4096" then 4096 else 0)
number _ = pos 0

abbrev to_int : Value → Option ℤ
to_int v = some (number v)

typed :
    (k : String) (v : Value)
    → (w : Value) × ((if is_int k then map_some int (to_int v) else some v) ≡ some w)
typed k v = elim (Bool-cases (is_int k)) [
  | inl whole ↦ (int (number v), rw whole refl)
  | inr other ↦ (v, rw other refl)
]

coerce-total : (k : String) (v : Value) → (w : Value) × (coerce to_int k v ≡ some w)
unfolding coerce
coerce-total k Value.null = (Value.null, refl)
coerce-total k (bool b) = typed k (bool b)
coerce-total k (int n) = typed k (int n)
coerce-total k (Value.float z s) = typed k (Value.float z s)
coerce-total k (text s) = typed k (text s)
coerce-total k (Value.array vs) = typed k (Value.array vs)
coerce-total k (Value.object fs) = typed k (Value.object fs)

abbrev environ : String → Option String
environ name = if name == "BLEMEES_AGENTD_MAX_LINE" then some "4096" else none

abbrev file : Dict Value
file = ("max_line_bytes", int (pos 5)) ∷ ("unknown", text "x") ∷ []

abbrev args : Dict (Option Value)
args =
    ("socket_path", some (text "/run/a"))
    ∷ ("claude_bin", none)
    ∷ ("version", some (bool false))
    ∷ []

load-precedence_example :
    (cfg : Dict Value) × (load to_int file environ args "/run/b" "/state" ≡ some cfg)
    × ((k : String)
        → is_field k ≡ true
        → (given : Option Value) × (coerced to_int k
              (source_of k file environ args "/run/b" "/state")
            ≡ some given)
          × (lookup k cfg ≡ or_else given (lookup k defaults)))
unfolding cli_values lookup
load-precedence_example =
    load-precedence to_int file environ args "/run/b" "/state" (refl, (refl, tt)) (refl, tt)
      (λ k v f e. coerce-total k v)
