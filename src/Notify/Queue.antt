-- ===== src/Notify/Queue.antt =====
-- The outstanding set of blemees_agent/notify.py as a client reads it.
use blemees_agent.Prelude.{leb, Bool-cases, values, ◌≤◌, inl, inr, List, [], ◌∷◌, arith}
use mathlib.Core.List.{Perm}
use mathlib.Core.List.Perm
use blemees_agent.Notify.{Notification, NotifyService, insert_by_ts, sort_by_ts, queue}

-- Each notification is no younger than the one after it.
abbrev pub IsOldestFirst : List Notification → Type 0
IsOldestFirst [] = Unit
IsOldestFirst (n ∷ []) = Unit
IsOldestFirst (n ∷ m ∷ ms) = (n.ts_ms ≤ m.ts_ms) × IsOldestFirst (m ∷ ms)

insert_by_ts-IsOldestFirst :
    (n : Notification) (ms : List Notification)
    → IsOldestFirst ms
    → IsOldestFirst (insert_by_ts n ms)
unfolding insert_by_ts
insert_by_ts-IsOldestFirst n [] h = tt
insert_by_ts-IsOldestFirst n (m ∷ []) h = ground arith
insert_by_ts-IsOldestFirst n (m ∷ k ∷ ms) h =
    ground (arith, insert_by_ts-IsOldestFirst n (k ∷ ms) h.1)

insert_by_ts-perm : (n : Notification) (ms : List Notification) → Perm (insert_by_ts n ms) (n ∷ ms)
unfolding insert_by_ts
insert_by_ts-perm n [] = Perm.refl (n ∷ [])
insert_by_ts-perm n (m ∷ ms) = elim (Bool-cases (leb n.ts_ms m.ts_ms)) [
  | inl older ↦ rw older (Perm.refl (n ∷ m ∷ ms))
  | inr younger ↦ rw younger (Perm.trans (Perm.cons m (insert_by_ts-perm n ms)) (Perm.swap n m ms))
]

sort_by_ts-IsOldestFirst : (ns : List Notification) → IsOldestFirst (sort_by_ts ns)
unfolding sort_by_ts
sort_by_ts-IsOldestFirst [] = tt
sort_by_ts-IsOldestFirst (n ∷ ns) =
    insert_by_ts-IsOldestFirst n (sort_by_ts ns) (sort_by_ts-IsOldestFirst ns)

sort_by_ts-perm : (ns : List Notification) → Perm (sort_by_ts ns) ns
unfolding sort_by_ts
sort_by_ts-perm [] = Perm.refl []
sort_by_ts-perm (n ∷ ns) =
    Perm.trans (insert_by_ts-perm n (sort_by_ts ns)) (Perm.cons n (sort_by_ts-perm ns))

-- The queue lists exactly the outstanding notifications, each as often as it is held, oldest first.
pub queue-IsOldestFirst :
    (svc : NotifyService) → IsOldestFirst (queue svc) × Perm (queue svc) (values svc.outstanding)
unfolding queue
queue-IsOldestFirst svc =
    (sort_by_ts-IsOldestFirst (values svc.outstanding), sort_by_ts-perm (values svc.outstanding))
