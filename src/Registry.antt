-- ===== src/Registry.antt =====
-- blemees_agent/registry.py: the records of the sessions and of the profiles made over the
-- wire. The file is held as the JSON value in it, and a write that fails leaves it as it is.
pub mod Restart
use blemees_agent.Prelude.{
  if◌then◌else◌, is_some, or_else, from_option, Dict, lookup, insert, erase, values, ℕ, String,
  Bool, ◌&&◌, Option, none, some, List, [], ◌∷◌, map,
}
use blemees_agent.Prelude.Int.{pos}
use blemees_agent.Value.{
  Value, Items, Fields, null, int, text, array, object, nil, item, end, field, as_text, as_object,
  as_array, truthy,
}
use blemees_agent.Protocol.{get, has}

-- `_RECORD_FIELDS`
abbrev pub record_fields : List String
record_fields =
    "session_id" ∷ "profile" ∷ "agent" ∷ "native_session_id" ∷ "cwd" ∷ "model" ∷ "mode"
    ∷ "created_at_ms" ∷ "last_active_at_ms" ∷ "turns" ∷ "view_only" ∷ []

pub record Registry : Type 0 where
  -- whether `_path` is set
  pub persistent : Bool
  -- whether the file system takes a write
  pub writable : Bool
  -- what the file holds, where there is one that parses
  pub file : Option Value
  pub records : Dict (Dict Value)
  pub profiles : Dict (Dict Value)

abbrev pub to_items : List Value → Items
to_items [] = nil
to_items (v ∷ vs) = item v (to_items vs)

abbrev pub to_fields : Dict Value → Fields
to_fields [] = end
to_fields ((k, v) ∷ d) = field k v (to_fields d)

-- A dict as a JSON object, and a list of them as an array.
abbrev pub to_array : List (Dict Value) → Value
to_array ds = array (to_items (map (λ d. object (to_fields d)) ds))

-- `{k: rec.get(k) for k in names if k in rec}`
unfoldable pub project : List String → Dict Value → Dict Value
project [] rec = []
project (k ∷ ks) rec =
    let rest = project ks rec in elim (lookup k rec) [ none ↦ rest | some v ↦ (k, v) ∷ rest ]

-- One entry of the file's "sessions", and one of its "profiles".
unfoldable pub adopt_record : Dict (Dict Value) → Value → Dict (Dict Value)
adopt_record d v = elim (as_object v) [
  | none ↦ d
  | some rec ↦ elim (get "session_id" rec) [
    | none ↦ d
    | some id ↦ elim (as_text id) [ none ↦ d | some k ↦ insert k (project record_fields rec) d ]
  ]
]

unfoldable pub adopt_profile : Dict (Dict Value) → Value → Dict (Dict Value)
adopt_profile d v = elim (as_object v) [
  | none ↦ d
  | some spec ↦ elim (get "name" spec) [
    | none ↦ d
    | some name ↦ elim (as_text name) [ none ↦ d | some k ↦ insert k spec d ]
  ]
]

abbrev pub adopt_each :
    (Dict (Dict Value) → Value → Dict (Dict Value))
    → List Value
    → Dict (Dict Value)
    → Dict (Dict Value)
adopt_each f [] d = d
adopt_each f (v ∷ vs) d = adopt_each f vs (f d v)

-- `data.get(key) if isinstance(data, dict) else None`, where it is a list
unfoldable pub list_at : String → Value → List Value
list_at key doc = elim (as_object doc) [
  | none ↦ []
  | some obj ↦ elim (get key obj) [ none ↦ [] | some v ↦ from_option [] (as_array v) ]
]

-- `Registry.load`
unfoldable pub load : Registry → Registry
load r =
    if r.persistent
    then elim r.file [
      | none ↦ r
      | some doc ↦ record r {
        records = adopt_each adopt_record (list_at "sessions" doc) r.records;
        profiles = adopt_each adopt_profile (list_at "profiles" doc) r.profiles;
      }
    ]
    else r

-- What `Registry.save` writes.
unfoldable pub payload : Registry → Value
payload r = object (
    field "version" (int (pos 1)) (
      field "sessions" (to_array (values r.records))
        (field "profiles" (to_array (values r.profiles)) end)))

-- `Registry.save`
unfoldable pub save : Registry → Registry
save r = if r.persistent && r.writable then record r { file = some (payload r) } else r

-- The fields of a call that `upsert` takes over: `None` says nothing.
unfoldable pub assign_fields : Dict Value → Dict Value → Dict Value
assign_fields [] rec = rec
assign_fields ((k, null) ∷ fs) rec = assign_fields fs rec
assign_fields ((k, v) ∷ fs) rec =
    assign_fields fs (if has record_fields k then insert k v rec else rec)

-- `rec.setdefault(key, value)`
unfoldable pub set_default : String → Value → Dict Value → Dict Value
set_default k v rec = elim (lookup k rec) [ none ↦ insert k v rec | some w ↦ rec ]

-- `d.get(key)` where it is true
unfoldable pub get_true : String → Dict Value → Option Value
get_true k d = elim (lookup k d) [ none ↦ none | some v ↦ if truthy v then some v else none ]

unfoldable pub last_active : Dict Value → Dict Value → Value
last_active fields rec =
    from_option (from_option null (lookup "created_at_ms" rec))
      (or_else (get_true "last_active_at_ms" fields) (get_true "last_active_at_ms" rec))

-- The record that `upsert` makes of an old one, at the time `now`.
unfoldable pub merged : ℕ → Dict Value → Dict Value → Dict Value
merged now fields rec =
    let rec' = set_default "created_at_ms" (int (pos now)) (assign_fields fields rec) in
    insert "last_active_at_ms" (last_active fields rec') rec'

-- `Registry.upsert`
unfoldable pub upsert : ℕ → String → Dict Value → Registry → Registry
upsert now session_id fields r =
    let old = from_option (("session_id", text session_id) ∷ []) (lookup session_id r.records) in
    record r { records = insert session_id (merged now fields old) r.records }

abbrev pub set_some : String → Option Value → Dict Value → Dict Value
set_some k none rec = rec
set_some k (some v) rec = insert k v rec

-- `Registry.touch`
unfoldable pub touch : ℕ → String → Option Value → Option Value → Registry → Registry
touch now session_id turns model r = elim (lookup session_id r.records) [
  | none ↦ r
  | some rec ↦ record r {
    records =
        insert session_id
          (set_some "model" model
            (set_some "turns" turns (insert "last_active_at_ms" (int (pos now)) rec)))
          r.records;
  }
]

-- `Registry.remove`, which says whether there was a record
unfoldable pub remove : String → Registry → Bool × Registry
remove session_id r =
    (is_some (lookup session_id r.records), record r { records = erase session_id r.records })

-- `Registry.get` and `Registry.all`
unfoldable pub get_record : String → Registry → Option (Dict Value)
get_record session_id r = lookup session_id r.records

abbrev pub all_records : Registry → List (Dict Value)
all_records r = values r.records

unfoldable pub upsert_profile : String → Dict Value → Registry → Registry
upsert_profile name spec r = record r {
  profiles = insert name (insert "name" (text name) spec) r.profiles;
}

unfoldable pub remove_profile : String → Registry → Bool × Registry
remove_profile name r =
    (is_some (lookup name r.profiles), record r { profiles = erase name r.profiles })

unfoldable pub get_profile_spec : String → Registry → Option (Dict Value)
get_profile_spec name r = lookup name r.profiles

abbrev pub all_profiles : Registry → List (Dict Value)
all_profiles r = values r.profiles
