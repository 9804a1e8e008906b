-- ===== src/Session/Title.antt =====
-- `record_user_message` of blemees_agent/session.py: the title is the first text that a user
-- sent, on one line and cut to 80 characters. Texts are lists of code points here.
pub mod Bounds
use blemees_agent.Prelude.{
  ltb, leb, nat_eq, if◌then◌else◌, ltb→lt, lt→ltb, ltb-false, ltb-false→le, leb→le, nat_eq_iff,
  tests, Bool-cases, Option-cases, is_some, is_none, or_else, from_option, codes, length, take,
  drop, take_last, head?, last?, keep_if, find_first, all_of, any_of, All, length-append,
  length-drop, length-take-le, drop-append, drop-nil, drop-drop, All-append, All-drop, All-map, In,
  All-In, In-keep_if, keep_if_sound, In-append, Dict, lookup, insert, erase, keys, values,
  lookup-insert, lookup-erase, dict_laws, ℕ, zero, suc, ◌+◌, ◌-◌, ◌*◌, ◌≤◌, ◌<◌, String, ◌≡◌, refl,
  sym, ap, ◌∙◌, ◌≢◌, ◌↔◌, ◌⊎◌, inl, inr, Bool, true, false, not, ◌&&◌, ◌||◌, Option, none, some,
  List, [], ◌∷◌, ◌++◌, map, arith, ◌==◌, eq_iff, eq_refl,
}
use blemees_agent.Value.{Value, text, array, items_of, as_text, as_object}
use blemees_agent.Protocol.{get}
use blemees_agent.Session.{Session}

-- `str.isspace`, which `str.split` and `str.rstrip` go by
unfoldable pub is_white : ℕ → Bool
is_white c =
    (leb 9 c && leb c 13)
    || (leb 28 c && leb c 32)
    || nat_eq c 133
    || nat_eq c 160
    || nat_eq c 5760
    || (leb 8192 c && leb c 8202)
    || nat_eq c 8232
    || nat_eq c 8233
    || nat_eq c 8239
    || nat_eq c 8287
    || nat_eq c 12288

abbrev pub ends_word : List ℕ → Bool
ends_word [] = true
ends_word (c ∷ cs) = is_white c

abbrev pub onto_word : ℕ → List (List ℕ) → List (List ℕ)
onto_word c [] = (c ∷ []) ∷ []
onto_word c (w ∷ ws) = (c ∷ w) ∷ ws

-- `text.split()`
unfoldable pub words : List ℕ → List (List ℕ)
words [] = []
words (c ∷ cs) =
    let rest = words cs in
    if is_white c then rest else if ends_word cs then (c ∷ []) ∷ rest else onto_word c rest

-- `" ".join(parts)`
unfoldable pub join_words : List (List ℕ) → List ℕ
join_words [] = []
join_words (w ∷ []) = w
join_words (w ∷ v ∷ ws) = w ++ 32 ∷ join_words (v ∷ ws)

-- A character in front of a text that ends in no white space.
abbrev pub onto_end : ℕ → List ℕ → List ℕ
onto_end c [] = if is_white c then [] else c ∷ []
onto_end c (d ∷ ds) = c ∷ d ∷ ds

-- `text.rstrip()`
unfoldable pub trim_end : List ℕ → List ℕ
trim_end [] = []
trim_end (c ∷ cs) = onto_end c (trim_end cs)

abbrev pub title_max_chars : ℕ
title_max_chars = 80

unfoldable pub capped : List ℕ → List ℕ
capped compact =
    if leb (length compact) title_max_chars
    then compact
    else trim_end (take 79 compact) ++ 8230 ∷ []

-- The texts of the blocks of type "text".
unfoldable pub text_parts : List Value → List (List ℕ)
text_parts [] = []
text_parts (block ∷ blocks) = elim (as_object block) [
  | none ↦ text_parts blocks
  | some d ↦ elim (get "type" d) [
    | some (text kind) ↦ elim (kind == "text") [
      | false ↦ text_parts blocks
      | true ↦ elim (get "text" d) [
        | some (text t) ↦ codes t ∷ text_parts blocks
        | _ ↦ text_parts blocks
      ]
    ]
    | _ ↦ text_parts blocks
  ]
]

-- The text of a message, empty where there is none.
unfoldable pub text_of : Dict Value → List ℕ
text_of message = elim (get "content" message) [
  | some (text t) ↦ codes t
  | some (array vs) ↦ join_words (text_parts (items_of vs))
  | _ ↦ []
]

-- An empty text gives no title.
abbrev pub with_title : List ℕ → Session → Session
with_title [] s = s
with_title (c ∷ cs) s = record s { title = some (capped (c ∷ cs)) }

-- A title that is set stays.
abbrev pub retitle : Option (List ℕ) → List ℕ → Session → Session
retitle (some t) compact s = s
retitle none compact s = with_title compact s

unfoldable pub record_user_message : Dict Value → Session → Session
record_user_message message s = retitle s.title (join_words (words (text_of message))) s
