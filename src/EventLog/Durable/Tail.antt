-- ===== src/EventLog/Durable/Tail.antt =====
-- What `DurableEventLog.tail` of blemees_agent/event_log.py returns of what `append` wrote.
use blemees_agent.Prelude.{
  All-drop, nat_eq, ltb-false, length, drop, take_last, All, length-drop, drop-nil, drop-drop,
  All-append, ℕ, zero, suc, ◌+◌, ◌-◌, ◌*◌, ◌≤◌, ◌<◌, ◌≡◌, refl, sym, ap, ◌∙◌, true, false, none,
  some, List, [], ◌∷◌, ◌++◌, map, arith,
}
use Prim.Native.Nat.{◌*◌, min}
use mathlib.Core.List.{append-nil, append_assoc}
use blemees_agent.EventLog.{Frame}
use blemees_agent.EventLog.Durable.{
  Bytes, newline, Codec, DurableEventLog, lstrip, rstrip, strip, split_lines, read_limit, append,
  parse_line, parse_lines, tail_lines, slice_last, tail,
}

-- The JSON text of a dict stands on one line and begins and ends with a brace, and `json.loads`
-- reads back what `json.dumps` wrote.
pub record IsJson (codec : Codec) : Type 0 where
  pub body : Frame → Bytes
  pub braces : (f : Frame) → codec.dumps f ≡ b'{' ∷ (body f ++ b'}' ∷ [])
  pub one_line : (f : Frame) → All (λ c. nat_eq c newline ≡ false) (body f)

-- The frames that `json.loads` gives back.
abbrev ReadsBack : Codec → List Frame → Type 0
ReadsBack codec fs = All (λ f. codec.loads (codec.dumps f) ≡ some f) fs

-- The log after each of the frames is appended.
unfoldable pub append_all : Codec → DurableEventLog → List Frame → DurableEventLog
append_all codec l [] = l
append_all codec l (f ∷ fs) = append_all codec (append codec l f) fs

abbrev pub fresh : DurableEventLog
fresh = record { file = none; is_open = false }

abbrev render : Codec → List Frame → Bytes
render codec [] = []
render codec (f ∷ fs) = codec.dumps f ++ (newline ∷ render codec fs)

file-append_all :
    (codec : Codec) (fs : List Frame) (bytes : Bytes)
    → (append_all codec (record { file = some bytes; is_open = true }) fs).file
      ≡ some (bytes ++ render codec fs)
unfolding append_all append
file-append_all codec [] bytes = rw append-nil
file-append_all codec (f ∷ fs) bytes =
    file-append_all codec fs (bytes ++ codec.dumps f ++ newline ∷ []) ∙ ap some (simp append_assoc)

split-line :
    (body rest : Bytes)
    → All (λ c. nat_eq c newline ≡ false) body
    → split_lines (body ++ (newline ∷ rest)) ≡ body ∷ split_lines rest
unfolding split_lines
split-line [] rest h = refl
split-line (c ∷ cs) rest h = rw (h.0, split-line cs rest h.1)

rstrip-brace : (cs : Bytes) → rstrip (cs ++ b'}' ∷ []) ≡ cs ++ b'}' ∷ []
unfolding rstrip
rstrip-brace [] = refl
rstrip-brace (c ∷ []) = refl
rstrip-brace (c ∷ d ∷ cs) = rw (rstrip-brace (d ∷ cs))

slice_last-take_last {ℓ} :
    {A : Type ℓ} (k : ℕ) (xs : List A) → 0 < k → slice_last k xs ≡ take_last k xs
slice_last-take_last zero xs h = absurd (omega arith)
slice_last-take_last (suc k) xs h = refl

module _ (codec : Codec) (json : IsJson codec) where
  dumps_one_line : (f : Frame) → All (λ c. nat_eq c newline ≡ false) (codec.dumps f)
  dumps_one_line f = rw (json.braces f) (
    refl,
    All-append (λ c. nat_eq c newline ≡ false) (json.body f) (b'}' ∷ []) (json.one_line f)
        (refl, tt),
  )

  strip-dumps : (f : Frame) → strip (codec.dumps f) ≡ b'{' ∷ (json.body f ++ b'}' ∷ [])
  unfolding strip lstrip
  strip-dumps f = rw (json.braces f) (rstrip-brace (b'{' ∷ json.body f))

  split-render : (fs : List Frame) → split_lines (render codec fs) ≡ map codec.dumps fs ++ [] ∷ []
  unfolding split_lines
  split-render [] = refl
  split-render (f ∷ fs) =
      split-line (codec.dumps f) (render codec fs) (dumps_one_line f)
      ∙ ap (λ ls. codec.dumps f ∷ ls) (split-render fs)

  parse_line-dumps :
      (f : Frame) → codec.loads (codec.dumps f) ≡ some f → parse_line codec (codec.dumps f) ≡ some f
  unfolding parse_line
  parse_line-dumps f back = rw (strip-dumps f, parse_line) (rw (← json.braces f) back)

  parse-dumps :
      (fs : List Frame)
      → ReadsBack codec fs
      → parse_lines codec (map codec.dumps fs ++ [] ∷ []) ≡ fs
  unfolding parse_lines
  parse-dumps [] back = unfold parse_line strip lstrip rstrip in refl
  parse-dumps (f ∷ fs) back =
      rw (parse_line-dumps f back.0, parse_lines) (ap (λ r. f ∷ r) (parse-dumps fs back.1))

  drop-lines :
      (k : ℕ) (fs : List Frame)
      → k ≤ length fs
      → drop k (map codec.dumps fs ++ [] ∷ []) ≡ map codec.dumps (drop k fs) ++ [] ∷ []
  drop-lines zero fs h = refl
  drop-lines (suc k) [] h = absurd (omega arith)
  drop-lines (suc k) (f ∷ fs) h = drop-lines k fs (omega arith)

  length-lines : (fs : List Frame) → length (map codec.dumps fs ++ [] ∷ []) ≡ length fs + 1
  length-lines [] = refl
  length-lines (f ∷ fs) = omega (arith, length-lines fs)

  drop_none : (n : ℕ) (bytes : Bytes) → split_lines (drop (n - n) bytes) ≡ split_lines bytes
  drop_none n bytes = ap (λ k. split_lines (drop k bytes)) (let e : n - n ≡ 0 = omega arith in e)

  -- The whole of a short file is read, one line for each frame and an empty one at the end.
  tail_lines-render :
      (fs : List Frame)
      → length (render codec fs) ≤ read_limit
      → tail_lines codec read_limit (render codec fs) ≡ map codec.dumps fs ++ [] ∷ []
  unfolding tail_lines
  tail_lines-render fs short =
      let whole : min (length (render codec fs)) read_limit ≡ length (render codec fs) =
        omega arith in
      rw
        (
          whole,
          ltb-false _ _
              (let h : length (render codec fs) ≤ length (render codec fs) = omega arith in h),
        )
        (drop_none (length (render codec fs)) (render codec fs) ∙ split-render fs)

  -- Twice as many lines as frames are wanted hold the empty line too.
  parse-slice :
      (n : ℕ) (fs : List Frame)
      → ReadsBack codec fs
      → take_last
          (suc n)
          (parse_lines codec (slice_last (suc n * 2) (map codec.dumps fs ++ [] ∷ [])))
        ≡ take_last (suc n) fs
  parse-slice n fs back =
      let lines = map codec.dumps fs ++ [] ∷ [] in
      let k = length lines - suc n * 2 in
      let kept : parse_lines codec (slice_last (suc n * 2) lines) ≡ drop k fs =
        ap (parse_lines codec) (slice_last-take_last (suc n * 2) lines (omega arith))
        ∙ ap (parse_lines codec) (drop-lines k fs (omega (arith, length-lines fs)))
        ∙ parse-dumps (drop k fs) (All-drop _ k fs back) in
      ap (take_last (suc n)) kept
      ∙ drop-drop (length (drop k fs) - suc n) k fs
      ∙ ap (λ m. drop m fs) (omega (arith, length-lines fs, length-drop k fs))

  tail-render :
      (n : ℕ) (fs : List Frame) (l : DurableEventLog)
      → ReadsBack codec fs
      → 0 < n
      → l.file ≡ some (render codec fs)
      → length (render codec fs) ≤ read_limit
      → tail codec l n ≡ take_last n fs
  unfolding tail
  tail-render zero fs l back h e short = absurd (omega arith)
  tail-render (suc n) fs l back h e short =
      rw (e, tail) (rw (tail_lines-render fs short) (parse-slice n fs back))

  file-fresh :
      (f : Frame) (fs : List Frame)
      → (append_all codec fresh (f ∷ fs)).file ≡ some (render codec (f ∷ fs))
  unfolding append_all append
  file-fresh f fs =
      file-append_all codec fs (codec.dumps f ++ newline ∷ []) ∙ ap some (simp append_assoc)

  -- While the file fits the part that `tail` reads, the last `n` frames come back as they were
  -- appended, for every positive `n`. The encoding of a frame is an object on one line, and
  -- reads back for the frames that were appended.
  pub tail-append_all :
      (n : ℕ) (fs : List Frame)
      → ReadsBack codec fs
      → 0 < n
      → length (render codec fs) ≤ read_limit
      → tail codec (append_all codec fresh fs) n ≡ take_last n fs
  tail-append_all n [] back h short = unfold tail append_all in sym (drop-nil _)
  tail-append_all n (f ∷ fs) back h short = tail-render n (f ∷ fs) _ back h (file-fresh f fs) short
