-- ===== src/Session/Title/Bounds.antt =====
-- What a session's title looks like (blemees_agent/session.py).
use blemees_agent.Prelude.{
  leb, nat_eq, leb→le, Bool-cases, length, take, All, length-append, length-take-le, All-append,
  Dict, ℕ, zero, suc, ◌≤◌, ◌≡◌, refl, ◌⊎◌, inl, inr, true, not, ◌||◌, Option, none, some, List, [],
  ◌∷◌, arith,
}
use mathlib.Core.Path.{subst}
use blemees_agent.Value.{Value}
use blemees_agent.Session.{Session}
use blemees_agent.Session.Title.{
  is_white, ends_word, onto_word, words, join_words, trim_end, capped, text_of, onto_end, retitle,
  record_user_message, title_max_chars,
}

-- White space is only a plain space.
abbrev pub OnOneLine : List ℕ → Type 0
OnOneLine cs = All (λ c. (not (is_white c) || nat_eq c 32) ≡ true) cs

All-onto_word :
    (c : ℕ) (ws : List (List ℕ))
    → (not (is_white c) || nat_eq c 32) ≡ true
    → All OnOneLine ws
    → All OnOneLine (onto_word c ws)
All-onto_word c [] h k = ((h, tt), tt)
All-onto_word c (w ∷ ws) h k = ((h, k.0), k.1)

words-All : (cs : List ℕ) → All OnOneLine (words cs)
unfolding words
words-All [] = tt
words-All (c ∷ cs) = elim (Bool-cases (is_white c)) [
  | inl white ↦ rw white (words-All cs)
  | inr black ↦
      let h : (not (is_white c) || nat_eq c 32) ≡ true = rw black refl in
      rw black (elim (Bool-cases (ends_word cs)) [
        | inl ends ↦ rw ends ((h, tt), words-All cs)
        | inr goes_on ↦ rw goes_on (All-onto_word c (words cs) h (words-All cs))
      ])
]

join_words-OnOneLine : (ws : List (List ℕ)) → All OnOneLine ws → OnOneLine (join_words ws)
unfolding join_words
join_words-OnOneLine [] h = tt
join_words-OnOneLine (w ∷ []) h = h.0
join_words-OnOneLine (w ∷ v ∷ ws) h =
    All-append _ w (32 ∷ join_words (v ∷ ws)) h.0
      (unfold is_white in refl, join_words-OnOneLine (v ∷ ws) h.1)

onto_end-OnOneLine :
    (c : ℕ) (r cs : List ℕ)
    → (not (is_white c) || nat_eq c 32) ≡ true
    → OnOneLine r
    → length r ≤ length cs
    → OnOneLine (onto_end c r) × (length (onto_end c r) ≤ suc (length cs))
onto_end-OnOneLine c [] cs h k le = elim (Bool-cases (is_white c)) [
  | inl white ↦ rw white (tt, omega arith)
  | inr black ↦ rw black ((rw black refl, tt), omega arith)
]
onto_end-OnOneLine c (d ∷ ds) cs h k le = ((h, k), omega arith)

trim_end-OnOneLine :
    (cs : List ℕ) → OnOneLine cs → OnOneLine (trim_end cs) × (length (trim_end cs) ≤ length cs)
unfolding trim_end
trim_end-OnOneLine [] h = (tt, omega arith)
trim_end-OnOneLine (c ∷ cs) h =
    let (k, le) = trim_end-OnOneLine cs h.1 in onto_end-OnOneLine c (trim_end cs) cs h.0 k le

take-OnOneLine : (n : ℕ) (cs : List ℕ) → OnOneLine cs → OnOneLine (take n cs)
take-OnOneLine zero cs h = tt
take-OnOneLine (suc n) [] h = tt
take-OnOneLine (suc n) (c ∷ cs) h = (h.0, take-OnOneLine n cs h.1)

-- Of 1 to 80 characters, and on one line.
abbrev pub IsTitle : List ℕ → Type 0
IsTitle t = (1 ≤ length t) × (length t ≤ title_max_chars) × OnOneLine t

capped-IsTitle : (c : ℕ) (cs : List ℕ) → OnOneLine (c ∷ cs) → IsTitle (capped (c ∷ cs))
unfolding capped
capped-IsTitle c cs h = elim (Bool-cases (leb (length (c ∷ cs)) title_max_chars)) [
  | inl fits ↦ rw fits (omega arith, leb→le _ _ fits, h)
  | inr long ↦
      let (k, le) = trim_end-OnOneLine (take 79 (c ∷ cs)) (take-OnOneLine 79 (c ∷ cs) h) in
      rw long (
        omega (arith, length-append (trim_end (take 79 (c ∷ cs))) (8230 ∷ [])),
        omega (
          arith,
          length-append (trim_end (take 79 (c ∷ cs))) (8230 ∷ []),
          length-take-le 79 (c ∷ cs),
        ),
        All-append _ _ _ k (unfold is_white in refl, tt),
      )
]

retitled :
    (o : Option (List ℕ)) (cs : List ℕ) (s : Session) (t : List ℕ)
    → OnOneLine cs
    → s.title ≡ o
    → (retitle o cs s).title ≡ some t
    → (s.title ≡ some t) ⊎ IsTitle t
retitled (some t') cs s t h e f = inl f
retitled none [] s t h e f = inl f
retitled none (c ∷ cs) s t h e f =
    let i : capped (c ∷ cs) ≡ t = cc in inr (subst IsTitle i (capped-IsTitle c cs h))

-- The title of a session after a user's message, if it has one, is the one that it had, or has 1
-- to 80 characters and no white space but the plain space.
pub record_user_message-IsTitle :
    (message : Dict Value) (s : Session) (t : List ℕ)
    → (record_user_message message s).title ≡ some t
    → (s.title ≡ some t) ⊎ IsTitle t
unfolding record_user_message
record_user_message-IsTitle message s t h =
    retitled s.title (join_words (words (text_of message))) s t
      (join_words-OnOneLine (words (text_of message)) (words-All (text_of message))) refl h
