-- ===== src/EventLog/Ring/Window.antt =====
-- The ring buffer of blemees_agent/event_log.py as a window on the whole history of a stream.
use blemees_agent.Prelude.{
  if◌then◌else◌, ltb, ltb→lt, lt→ltb, ltb-false→le, Bool-cases, length, drop, take_last, head?,
  length-append, length-drop, drop-append, drop-nil, drop-drop, In, In-keep_if, keep_if_sound, ℕ,
  zero, suc, ◌-◌, ◌≤◌, ◌<◌, ◌≡◌, refl, sym, ap, ◌∙◌, ◌⊎◌, inl, inr, some, List, [], ◌∷◌, ◌++◌,
  arith,
}
use mathlib.Core.List.{append-nil, append_assoc}
use mathlib.Core.Path.{subst}
use blemees_agent.EventLog.{Frame, seq_of}
use blemees_agent.EventLog.Ring.{RingBuffer, init, push, append, extend, since}

-- `r` holds the last frames of `history`, as many as its capacity.
pub record IsWindow (r : RingBuffer) (history : List Frame) : Type 0 where
  pub positive : 0 < r.capacity
  pub last : r.buf ≡ take_last r.capacity history

-- The sequence numbers rise strictly, from above `lo`.
abbrev pub Ascends : ℕ → List Frame → Type 0
Ascends lo [] = Unit
Ascends lo (f ∷ fs) = (lo < seq_of f) × Ascends (seq_of f) fs

drop_cong : {m n : ℕ} (xs : List Frame) → m ≡ n → drop m xs ≡ drop n xs
drop_cong xs e = ap (λ k. drop k xs) e

push_room :
    (n : ℕ) (h : List Frame) (f : Frame)
    → length h < n
    → take_last n h ++ f ∷ [] ≡ take_last n (h ++ f ∷ [])
push_room n h f lt =
    ap (λ xs. xs ++ f ∷ []) (drop_cong {n = 0} h (omega arith))
    ∙ sym (drop_cong {n = 0} (h ++ f ∷ []) (omega (arith, length-append h (f ∷ []))))

push_full :
    (n : ℕ) (h : List Frame) (f : Frame)
    → n ≤ length h
    → drop 1 (take_last n h ++ f ∷ []) ≡ take_last n (h ++ f ∷ [])
push_full n h f le =
    ap (drop 1) (sym (drop-append (length h - n) h (f ∷ []) (omega arith)))
    ∙ drop-drop 1 (length h - n) (h ++ f ∷ [])
    ∙ drop_cong (h ++ f ∷ []) (omega (arith, length-append h (f ∷ [])))

pub push-take_last :
    (n : ℕ) (h : List Frame) (f : Frame)
    → 0 < n
    → push n (take_last n h) f ≡ take_last n (h ++ f ∷ [])
unfolding push
push-take_last n h f positive = elim (Bool-cases (ltb (length (take_last n h)) n)) [
  | inl room ↦
      rw room (push_room n h f (omega (arith, ltb→lt _ _ room, length-drop (length h - n) h)))
  | inr full ↦
      rw full (push_full n h f (omega (arith, ltb-false→le _ _ full, length-drop (length h - n) h)))
]

-- Appending a frame to the ring moves the window over the history by that frame.
pub append-IsWindow :
    {r : RingBuffer} {h : List Frame} (f : Frame)
    → IsWindow r h
    → IsWindow (append r f) (h ++ f ∷ [])
unfolding append
append-IsWindow {r} {h} f w = record {
  positive = w.positive;
  last = ap (λ xs. push r.capacity xs f) w.last ∙ push-take_last r.capacity h f w.positive;
}

pub extend-IsWindow :
    (fs : List Frame) {r : RingBuffer} {h : List Frame}
    → IsWindow r h
    → IsWindow (extend r fs) (h ++ fs)
unfolding extend
extend-IsWindow [] w = rw append-nil w
extend-IsWindow (f ∷ fs) {r} {h} w =
    subst (IsWindow (extend (append r f) fs)) (append_assoc h (f ∷ []) fs)
      (extend-IsWindow fs (append-IsWindow f w))

pub init-IsWindow : (capacity : ℕ) → IsWindow (init capacity) []
unfolding init
init-IsWindow capacity = record { positive = omega arith; last = sym (drop-nil _) }

capacity-init : (capacity : ℕ) → (init capacity).capacity ≡ (if ltb 0 capacity then capacity else 1)
unfolding init
capacity-init capacity = ground arith

pub capacity-extend : (r : RingBuffer) (fs : List Frame) → (extend r fs).capacity ≡ r.capacity
unfolding extend append
capacity-extend r [] = refl
capacity-extend r (f ∷ fs) = capacity-extend (append r f) fs

-- A ring made for a capacity keeps that capacity, or 1 where it is 0, and after any frames it
-- holds the last of them, in order: as many as its capacity.
pub buf-extend :
    (capacity : ℕ) (fs : List Frame)
    → ((extend (init capacity) fs).capacity ≡ (if ltb 0 capacity then capacity else 1))
      × ((extend (init capacity) fs).buf ≡ take_last (if ltb 0 capacity then capacity else 1) fs)
buf-extend capacity fs =
    let e = capacity-extend (init capacity) fs ∙ capacity-init capacity in
    (e, (extend-IsWindow fs (init-IsWindow capacity)).last ∙ ap (λ n. take_last n fs) e)

-- The first frame that is left is later than all that was dropped.
head-drop-lt :
    (lo k : ℕ) (fs : List Frame)
    → k < length fs
    → Ascends lo fs
    → (e : Frame) × (head? (drop k fs) ≡ some e) × (lo < seq_of e)
head-drop-lt lo k [] lt a = absurd (omega arith)
head-drop-lt lo zero (x ∷ fs) lt a = (x, refl, a.0)
head-drop-lt lo (suc k) (x ∷ fs) lt a =
    let (e, first, later) = head-drop-lt (seq_of x) k fs (omega arith) a.1 in
    (e, first, omega arith)

drop-covers :
    (lo k : ℕ) (fs : List Frame) (f : Frame)
    → k < length fs
    → Ascends lo fs
    → In f fs
    → In f (drop k fs) ⊎ ((e : Frame) × (head? (drop k fs) ≡ some e) × (seq_of f < seq_of e))
drop-covers lo k [] f lt a i = elim i [ ]
drop-covers lo zero (x ∷ fs) f lt a i = inl i
drop-covers lo (suc k) (x ∷ fs) f lt a (inl e) =
    let (y, first, later) = head-drop-lt (seq_of x) k fs (omega arith) a.1 in
    inr (y, first, subst (λ z. seq_of z < seq_of y) e later)
drop-covers lo (suc k) (x ∷ fs) f lt a (inr i) = drop-covers (seq_of x) k fs f (omega arith) a.1 i

length-In : (f : Frame) (fs : List Frame) → In f fs → 0 < length fs
length-In f [] i = elim i [ ]
length-In f (x ∷ fs) i = omega arith

-- Of a history with rising numbers, each frame after `seq` is among those that `since` returns, or
-- is older than the first frame that the ring still holds.
pub since-covers :
    {r : RingBuffer} {h : List Frame} (lo seq : ℕ) (f : Frame)
    → IsWindow r h
    → Ascends lo h
    → In f h
    → seq < seq_of f
    → In f (since r seq) ⊎ ((e : Frame) × (head? r.buf ≡ some e) × (seq_of f < seq_of e))
unfolding since
since-covers {r} {h} lo seq f w a i late =
    rw w.last
      (elim (drop-covers lo (length h - r.capacity) h f (omega (arith, length-In f h i, w.positive))
        a i) [
          | inl kept ↦ inl (In-keep_if _ f _ kept (lt→ltb seq (seq_of f) late))
          | inr old ↦ inr old
        ])

-- `since` returns only frames that the ring holds, each after `seq`.
pub since_sound :
    (r : RingBuffer) (seq : ℕ) (f : Frame) → In f (since r seq) → In f r.buf × (seq < seq_of f)
unfolding since
since_sound r seq f i =
    let (held, late) = keep_if_sound _ f r.buf i in (held, ltb→lt seq (seq_of f) late)
