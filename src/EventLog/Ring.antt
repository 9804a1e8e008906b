-- ===== src/EventLog/Ring.antt =====
-- `RingBuffer` of blemees_agent/event_log.py.
pub mod Window
use blemees_agent.Prelude.{
  ltb, if◌then◌else◌, length, drop, head?, last?, keep_if, ℕ, ◌+◌, Option, none, some, List, [],
  ◌∷◌, ◌++◌,
}
use Prim.Native.Nat.{max}
use blemees_agent.EventLog.{Frame, seq_of}

pub record RingBuffer : Type 0 where
  pub capacity : ℕ
  pub buf : List Frame

-- `RingBuffer(capacity)`: the capacity is at least 1.
unfoldable pub init : ℕ → RingBuffer
init capacity = record { capacity = max 1 capacity; buf = [] }

-- `deque(maxlen=capacity).append`: a full deque discards its first item.
unfoldable pub push : ℕ → List Frame → Frame → List Frame
push capacity buf frame =
    if ltb (length buf) capacity then buf ++ frame ∷ [] else drop 1 (buf ++ frame ∷ [])

unfoldable pub append : RingBuffer → Frame → RingBuffer
unfolding push
append r frame = record r { buf = push r.capacity r.buf frame }

unfoldable pub extend : RingBuffer → List Frame → RingBuffer
extend r [] = r
extend r (f ∷ frames) = extend (append r f) frames

unfoldable pub since : RingBuffer → ℕ → List Frame
since r seq = keep_if (λ f. ltb seq (seq_of f)) r.buf

unfoldable pub earliest_seq : RingBuffer → Option ℕ
earliest_seq r = elim (head? r.buf) [ none ↦ none | some f ↦ f.seq ]

unfoldable pub latest_seq : RingBuffer → Option ℕ
latest_seq r = elim (last? r.buf) [ none ↦ none | some f ↦ f.seq ]
