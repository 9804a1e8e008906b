-- ===== src/Session/Permission.antt =====
-- The permission relay of blemees_agent/session.py. `decide_permission` is cut at its `await`:
-- `ask` runs up to it, and `wake` goes on once the future is done.
pub mod Policy
pub mod Relay
use blemees_agent.Prelude.{
  nat_eq, if◌then◌else◌, is_some, or_else, codes, keep_if, find_first, any_of, Dict, lookup, insert,
  erase, ℕ, ◌+◌, String, Bool, true, false, not, ◌&&◌, Option, none, some, List, [], ◌∷◌, ◌++◌,
  ◌==◌,
}
use blemees_agent.Value.{Value, as_text}
use blemees_agent.EventLog.{PermissionOption, request_permission}
use blemees_agent.Notify.{permission_pending, permission_needed}
use blemees_agent.Session.{
  Session, Kind, allow, deny, Decision, selected, cancelled, Future, waiting, decided, withdrawn,
  Waiter, Effect, Env, Out, ◌▸◌,
}
use blemees_agent.Session.Events.{publish, enter_attention, clear_attention, bare}

-- `str.startswith`, on code points
abbrev pub has_prefix : List ℕ → List ℕ → Bool
has_prefix cs [] = true
has_prefix [] (p ∷ ps) = false
has_prefix (c ∷ cs) (p ∷ ps) = nat_eq c p && has_prefix cs ps

abbrev pub prefix_of : Kind → String
prefix_of allow = "allow"
prefix_of deny = "reject"

abbrev pub is_of_kind : Kind → PermissionOption → Bool
is_of_kind k o = has_prefix (codes o.kind) (codes (prefix_of k))

-- `_auto_decision`
unfoldable pub auto_decision : List PermissionOption → Kind → Decision
auto_decision options k = elim (find_first (is_of_kind k) options) [
  | none ↦ cancelled none
  | some o ↦ selected o.option_id
]

-- `policy.get(key)` where it is "allow" or "deny"; any other value relays, or stalls.
unfoldable pub kind_at : String → Dict Value → Option Kind
kind_at key policy = elim (lookup key policy) [
  | none ↦ none
  | some v ↦ elim (as_text v) [
    | none ↦ none
    | some s ↦ if s == "allow" then some allow else if s == "deny" then some deny else none
  ]
]

-- `_policy_decision`: what was remembered comes before the mode.
unfoldable pub policy_decision : Session → List PermissionOption → Option Decision
policy_decision s options =
    elim (or_else s.remembered_permission (kind_at "mode" s.permission_policy)) [
      | none ↦ none
      | some k ↦ some (auto_decision options k)
    ]

-- `_maybe_remember`
unfoldable pub remember_kind : String → Option Kind → Option Kind
remember_kind kind old =
    if kind == "allow_always"
    then some allow
    else if kind == "reject_always"
    then some deny
    else old

unfoldable pub maybe_remember : List PermissionOption → Decision → Session → Session
unfolding remember_kind
maybe_remember options (cancelled o) s = s
maybe_remember options (selected id) s = elim (find_first (λ o. o.option_id == id) options) [
  | none ↦ s
  | some o ↦ record s { remembered_permission = remember_kind o.kind s.remembered_permission }
]

-- Where `decide_permission` stands: it has answered, or it awaits the future of its request.
pub data Asked : Type 0 where
  answered : Decision → Asked
  awaiting : String → Asked

-- The request is registered, then relayed to the owner.
unfoldable pub relay :
    Env → String → List PermissionOption → Value → Bool → Session → Session × List Effect × Asked
relay env id options tool_call stalled s =
    let o = publish env (bare (request_permission id options tool_call)) (record s {
      pending_permissions = s.pending_permissions ++ id ∷ [];
      waiters =
          insert id (record { options = options; stalled = stalled; future = waiting }) s.waiters;
    }) in
    (o.0, o.1, awaiting id)

-- With no owner: the policy's `detached` answers, or the request stalls.
unfoldable pub ask_detached :
    Env
    → String
    → Option String
    → List PermissionOption
    → Value
    → Session
    → Session × List Effect × Asked
ask_detached env id title options tool_call s = elim (kind_at "detached" s.permission_policy) [
  | some k ↦ (s, [], answered (auto_decision options k))
  | none ↦
      let o = enter_attention env permission_pending (permission_needed title) s in
      let r = relay env id options tool_call true o.0 in (r.0, o.1 ++ r.1, r.2)
]

-- `decide_permission` up to the `await`. `id` is the fresh request id, `title` the tool call's.
unfoldable pub ask :
    Env
    → String
    → Option String
    → List PermissionOption
    → Value
    → Session
    → Session × List Effect × Asked
ask env id title options tool_call s = elim (policy_decision s options) [
  | some d ↦ (s, [], answered d)
  | none ↦
      if is_some s.connection_id
      then relay env id options tool_call false s
      else ask_detached env id title options tool_call s
]

-- `fut.set_result`, on a future that is not done.
abbrev pub settle : Decision → Waiter → Waiter
settle d w = record w { future = decided d }

-- `resolve_permission`: only a pending request whose future is not done.
unfoldable pub resolve_waiter : String → Decision → Option Waiter → Session → Session × Bool
resolve_waiter id d none s = (s, false)
resolve_waiter id d (some w) s = elim w.future [
  | waiting ↦ (record s { waiters = insert id (settle d w) s.waiters }, true)
  | _ ↦ (s, false)
]

unfoldable pub resolve_permission : String → Decision → Session → Session × Bool
unfolding resolve_waiter
resolve_permission id d s =
    if any_of (λ j. j == id) s.pending_permissions
    then resolve_waiter id d (lookup id s.waiters) s
    else (s, false)

-- `fut.cancel()`
abbrev pub withdraw : Future → Future
withdraw waiting = withdrawn
withdraw (decided d) = decided d
withdraw withdrawn = withdrawn

abbrev pub withdraw_all : List String → Dict Waiter → Dict Waiter
withdraw_all pending [] = []
withdraw_all pending ((id, w) ∷ ws) =
    (id, if any_of (λ j. j == id) pending then record w { future = withdraw w.future } else w)
    ∷ withdraw_all pending ws

unfoldable pub cancel_pending_permissions : Session → Session
cancel_pending_permissions s = record s {
  waiters = withdraw_all s.pending_permissions s.waiters;
  pending_permissions = [];
}

-- The `finally` of `decide_permission`.
unfoldable pub leave : Env → String → Bool → Session → Out
leave env id stalled s =
    let t = record s {
      pending_permissions = keep_if (λ j. not (j == id)) s.pending_permissions;
      waiters = erase id s.waiters;
    } in
    if stalled then clear_attention env t else (t, [])

-- The rest of `decide_permission`; the answer is `none` where the future was cancelled.
unfoldable pub resume :
    Env → String → Waiter → Session → Option (Session × List Effect × Option Decision)
unfolding leave
resume env id w s = elim w.future [
  | waiting ↦ none
  | decided d ↦
      let o = leave env id w.stalled s in some (maybe_remember w.options d o.0, o.1, some d)
  | withdrawn ↦ let o = leave env id w.stalled s in some (o.0, o.1, none)
]

-- `none` while there is no such call, or its future is not done.
unfoldable pub wake : Env → String → Session → Option (Session × List Effect × Option Decision)
wake env id s = elim (lookup id s.waiters) [ none ↦ none | some w ↦ resume env id w s ]
