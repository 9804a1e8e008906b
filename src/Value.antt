-- ===== src/Value.antt =====
-- The values of a JSON document, as `json.loads` builds them (protocol.py and session.py read
-- them by `isinstance`).
use blemees_agent.Prelude.Int.{ℤ, pos}
use blemees_agent.Prelude.{
  Dict, zero, String, Bool, true, false, not, Option, none, some, List, [], ◌∷◌, ◌==◌,
}

mutual
  pub data Value : Type 0 where
    null : Value
    bool : Bool → Value
    int : ℤ → Value
    -- a float: whether it is other than 0.0, and its text
    float : Bool → String → Value
    text : String → Value
    array : Items → Value
    object : Fields → Value

  pub data Items : Type 0 where
    nil : Items
    item : Value → Items → Items

  pub data Fields : Type 0 where
    end : Fields
    field : String → Value → Fields → Fields

-- The dict of an object's fields.
abbrev pub entries : Fields → Dict Value
entries end = []
entries (field k v fs) = (k, v) ∷ entries fs

abbrev pub items_of : Items → List Value
items_of nil = []
items_of (item v vs) = v ∷ items_of vs

-- `isinstance(v, str)`
abbrev pub as_text : Value → Option String
as_text (text s) = some s
as_text _ = none

-- `isinstance(v, int)`: `bool` is a subclass of `int`, and `True` is 1.
abbrev pub as_int : Value → Option ℤ
as_int (int n) = some n
as_int (bool true) = some (pos 1)
as_int (bool false) = some (pos 0)
as_int _ = none

-- `isinstance(v, dict)`
abbrev pub as_object : Value → Option (Dict Value)
as_object (object fs) = some (entries fs)
as_object _ = none

-- `isinstance(v, list)`
abbrev pub as_array : Value → Option (List Value)
as_array (array vs) = some (items_of vs)
as_array _ = none

-- `bool(v)`
unfoldable pub truthy : Value → Bool
truthy null = false
truthy (bool b) = b
truthy (int (ℤ.pos zero)) = false
truthy (int _) = true
truthy (float b _) = b
truthy (text s) = not (s == "")
truthy (array nil) = false
truthy (array (item v vs)) = true
truthy (object end) = false
truthy (object (field k v fs)) = true
