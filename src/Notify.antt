-- ===== src/Notify.antt =====
-- blemees_agent/notify.py: the triggers, and the service that keeps the outstanding set. The
-- sinks are those who consume what is dispatched: a dispatch is an entry of `dispatched`.
pub mod Queue
use blemees_agent.Prelude.{
  leb, if◌then◌else◌, is_some, any_of, Dict, lookup, insert, erase, values, ℕ, ◌+◌, ◌-◌, String,
  Bool, true, Option, List, [], ◌∷◌, ◌++◌, ◌==◌,
}

abbrev pub permission_pending : String
permission_pending = "permission_pending"

abbrev pub auth_required : String
auth_required = "auth_required"

abbrev pub agent_crashed : String
agent_crashed = "agent_crashed"

abbrev pub turn_complete : String
turn_complete = "turn_complete"

abbrev pub blocked_triggers : List String
blocked_triggers = permission_pending ∷ auth_required ∷ agent_crashed ∷ []

abbrev pub known_triggers : List String
known_triggers = turn_complete ∷ blocked_triggers

-- `x in names`
abbrev pub member : String → List String → Bool
member x names = any_of (λ y. y == x) names

-- `_TITLES`, with the fallback of `__post_init__`
unfoldable pub title_of : String → String
title_of reason =
    if reason == permission_pending
    then "blemees: permission needed"
    else if reason == auth_required
    then "blemees: authentication required"
    else if reason == agent_crashed
    then "blemees: agent crashed"
    else if reason == turn_complete
    then "blemees: turn complete"
    else if reason == "test"
    then "blemees: test notification"
    else "blemees: attention needed"

-- The `detail` texts, by what they are made from.
pub data Detail : Type 0 where
  turn_finished : String → Detail
  permission_needed : Option String → Detail
  agent_error : Option String → Detail
  test_event : Detail

pub record Notification : Type 0 where
  pub reason : String
  pub profile : String
  pub session_id : String
  pub detail : Detail
  pub ts_ms : ℕ
  pub title : String

-- `Notification(...)` with no title given
unfoldable pub notification : String → String → String → Detail → ℕ → Notification
notification reason profile session_id detail ts_ms = record {
  reason = reason;
  profile = profile;
  session_id = session_id;
  detail = detail;
  ts_ms = ts_ms;
  title = title_of reason;
}

pub record NotifyService : Type 0 where
  pub has_sinks : Bool
  pub outstanding : Dict Notification
  pub dispatched : List Notification

abbrev pub no_service : NotifyService
no_service = record { has_sinks = true; outstanding = []; dispatched = [] }

-- `_dispatch`
unfoldable pub dispatch : Notification → NotifyService → NotifyService
dispatch n svc = if svc.has_sinks then record svc { dispatched = svc.dispatched ++ n ∷ [] } else svc

unfoldable pub fire : String → String → String → Detail → ℕ → NotifyService → NotifyService
unfolding dispatch
fire reason profile session_id detail now_ms svc =
    let n = notification reason profile session_id detail now_ms in
    dispatch n (record svc { outstanding = insert session_id n svc.outstanding })

-- `test` dispatches and leaves the outstanding set.
unfoldable pub test : String → ℕ → NotifyService → NotifyService
test profile now_ms svc = dispatch (notification "test" profile "notify-test" test_event now_ms) svc

unfoldable pub clear : String → NotifyService → NotifyService × Bool
clear session_id svc = (
  record svc { outstanding = erase session_id svc.outstanding },
  is_some (lookup session_id svc.outstanding),
)

-- `sorted` by `ts_ms`: stable, so an equal stamp keeps its place.
unfoldable pub insert_by_ts : Notification → List Notification → List Notification
insert_by_ts n [] = n ∷ []
insert_by_ts n (m ∷ ms) = if leb n.ts_ms m.ts_ms then n ∷ m ∷ ms else m ∷ insert_by_ts n ms

unfoldable pub sort_by_ts : List Notification → List Notification
unfolding insert_by_ts
sort_by_ts [] = []
sort_by_ts (n ∷ ns) = insert_by_ts n (sort_by_ts ns)

-- The method `outstanding`: oldest first.
unfoldable pub queue : NotifyService → List Notification
queue svc = sort_by_ts (values svc.outstanding)
