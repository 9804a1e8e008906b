-- ===== src/Session/Permission/Relay.antt =====
-- A permission request that is relayed to the owner (blemees_agent/session.py).
use mathlib.Core.Path.{subst}
use blemees_agent.Prelude.{
  sym, ◌∙◌, if◌then◌else◌, Bool-cases, any_of, In, ◌+◌, Dict, lookup, insert, lookup-insert, ℕ,
  String, ◌≡◌, refl, ap, inl, inr, Bool, true, false, Option, none, some, List, [], ◌∷◌, ◌++◌,
  arith, ◌==◌, eq_iff, eq_refl,
}
use blemees_agent.Value.{Value}
use blemees_agent.EventLog.{Frame, PermissionOption, request_permission}
use blemees_agent.EventLog.Ring.{append}
use blemees_agent.Session.Usage.{update_usage}
use blemees_agent.Session.{Session, Decision, waiting, withdrawn, Waiter, Effect, send, Env}
use blemees_agent.Session.Events.{bare, stamp, record_frame, push_owner, push_watchers, publish}
use blemees_agent.Session.Events.Control.{SameControl-publish, publish_stream}
use blemees_agent.Session.Permission.{
  policy_decision, awaiting, ask, relay, resolve_permission, resolve_waiter, settle,
  cancel_pending_permissions, wake, resume, leave, maybe_remember, withdraw_all, withdraw,
}

-- The call `id` stands at its `await`: registered, its future not done.
pub record IsAwaiting (id : String) (w : Waiter) (s : Session) : Type 0 where
  pub registered : any_of (λ j. j == id) s.pending_permissions ≡ true
  pub held : lookup id s.waiters ≡ some w
  pub open_future : w.future ≡ waiting

any_of-append :
    (p : String → Bool) (xs : List String) (y : String)
    → p y ≡ true
    → any_of p (xs ++ y ∷ []) ≡ true
any_of-append p [] y h = rw h
any_of-append p (x ∷ xs) y h = ground (arith, any_of-append p xs y h)

relay-IsAwaiting :
    (env : Env) (id : String) (options : List PermissionOption) (tool_call : Value) (stalled : Bool)
    (s : Session)
    → IsAwaiting id
        (record { options = options; stalled = stalled; future = waiting })
        (relay env id options tool_call stalled s).0
unfolding relay
relay-IsAwaiting env id options tool_call stalled s =
    let c = SameControl-publish env (bare (request_permission id options tool_call)) (record s {
      pending_permissions = s.pending_permissions ++ id ∷ [];
      waiters =
          insert id (record { options = options; stalled = stalled; future = waiting }) s.waiters;
    }) in
    record {
      registered = rw c.pending_permissions (any_of-append _ s.pending_permissions id (eq_refl id));
      held = rw c.waiters (rw lookup-insert (rw (eq_refl id)));
      open_future = refl;
    }

resolve_waiting :
    (id : String) (d : Decision) (w : Waiter) (s : Session)
    → IsAwaiting id w s
    → resolve_permission id d s ≡ (record s { waiters = insert id (settle d w) s.waiters }, true)
unfolding resolve_permission
resolve_waiting id d w s a =
    rw (a.registered, resolve_permission) (rw a.held (rw (a.open_future, resolve_waiter)))

wake_decided :
    (env : Env) (id : String) (d : Decision) (w : Waiter) (s : Session)
    → lookup id s.waiters ≡ some (settle d w)
    → wake env id s
      ≡ some (
        maybe_remember w.options d (leave env id w.stalled s).0,
        (leave env id w.stalled s).1,
        some d,
      )
unfolding wake resume
wake_decided env id d w s held = rw (held, wake)

resolve_settled :
    (id : String) (d d' : Decision) (w : Waiter) (s : Session)
    → lookup id s.waiters ≡ some (settle d w)
    → resolve_permission id d' s ≡ (s, false)
unfolding resolve_permission
resolve_settled id d d' w s held = elim (Bool-cases (any_of (λ j. j == id) s.pending_permissions)) [
  | inl there ↦ rw (there, resolve_permission) (rw held (unfold resolve_waiter in refl))
  | inr gone ↦ rw (gone, resolve_permission)
]

-- The first answer to an awaited request is taken and wakes the agent's call with that decision;
-- any later answer to it is refused and changes nothing.
pub resolve_once :
    (env : Env) (id : String) (d d' : Decision) (w : Waiter) (s : Session)
    → IsAwaiting id w s
    → (s' : Session) × (resolve_permission id d s ≡ (s', true))
      × (resolve_permission id d' s' ≡ (s', false))
      × ((t : Session) × (es : List Effect) × (wake env id s' ≡ some (t, es, some d)))
resolve_once env id d d' w s a =
    let s' = record s { waiters = insert id (settle d w) s.waiters } in
    let held : lookup id s'.waiters ≡ some (settle d w) = rw lookup-insert (rw (eq_refl id)) in
    (
      s',
      resolve_waiting id d w s a,
      resolve_settled id d d' w s' held,
      (_, _, wake_decided env id d w s' held),
    )

ask_relayed :
    (env : Env) (id : String) (title : Option String) (options : List PermissionOption)
    (tool_call : Value) (s : Session) (c : ℕ)
    → policy_decision s options ≡ none
    → s.connection_id ≡ some c
    → ask env id title options tool_call s ≡ relay env id options tool_call false s
unfolding ask
ask_relayed env id title options tool_call s c no_policy owned =
    rw (no_policy, ask) (rw (owned, ask))

wake_waiting :
    (env : Env) (id : String) (w : Waiter) (s : Session) → IsAwaiting id w s → wake env id s ≡ none
unfolding wake resume
wake_waiting env id w s a = rw (a.held, wake) (rw (a.open_future, resume))

relay-awaiting :
    (env : Env) (id : String) (options : List PermissionOption) (tool_call : Value) (stalled : Bool)
    (s : Session)
    → (relay env id options tool_call stalled s).2 ≡ awaiting id
unfolding relay
relay-awaiting env id options tool_call stalled s = refl

writer-record_frame :
    (env : Env) (f : Frame) (s : Session) → (record_frame env f s).writer ≡ s.writer
unfolding record_frame update_usage
writer-record_frame env f s = ground arith

push_owner-sends :
    (env : Env) (k : ℕ) (g : Frame) (s : Session)
    → s.writer ≡ some k
    → env.accepts k g ≡ true
    → (push_owner env g s).1 ≡ send k g ∷ []
unfolding push_owner
push_owner-sends env k g s writes takes = rw (writes, push_owner) (rw takes refl)

-- What is published goes to the owner's writer, if it does not raise.
publish-sends :
    (env : Env) (k : ℕ) (f : Frame) (s : Session)
    → s.writer ≡ some k
    → env.accepts k (stamp s f) ≡ true
    → In (send k (stamp s f)) (publish env f s).1
unfolding publish
publish-sends env k f s writes takes =
    let g = stamp s f in
    let r = record_frame env g s in
    let told = push_owner-sends env k g r (writer-record_frame env g s ∙ writes) takes in
    subst (λ es. In (send k g) (es ++ (push_watchers env g (push_owner env g r).0).1)) (sym told)
      (inl refl)

-- The frame of a relayed request.
abbrev pub request_frame : String → List PermissionOption → Value → Session → Frame
request_frame id options tool_call s = record {
  session_id = some s.session_id;
  seq = some (s.seq + 1);
  event = request_permission id options tool_call;
}

-- Where no policy decides and an owner is attached, the request is relayed: its frame is recorded in
-- the ring under the next number and sent to the owner, whose writer must not raise on it; the
-- agent's call waits, cannot go on before an answer is given, and then goes on with the owner's
-- decision.
pub ask-resolve :
    (env : Env) (id : String) (title : Option String) (options : List PermissionOption)
    (tool_call : Value) (s : Session) (c : ℕ) (d : Decision)
    → policy_decision s options ≡ none
    → s.connection_id ≡ some c
    → s.writer ≡ some c
    → env.accepts c (request_frame id options tool_call s) ≡ true
    → ((ask env id title options tool_call s).2 ≡ awaiting id)
      × In (send c (request_frame id options tool_call s)) (ask env id title options tool_call s).1
      × ((ask env id title options tool_call s).0.ring
          ≡ append s.ring (request_frame id options tool_call s))
      × (wake env id (ask env id title options tool_call s).0 ≡ none)
      × ((s' : Session) × (resolve_permission id d (ask env id title options tool_call s).0
            ≡ (s', true))
          × ((t : Session) × (es : List Effect) × (wake env id s' ≡ some (t, es, some d))))
ask-resolve env id title options tool_call s c d no_policy owned writes takes =
    rw (ask_relayed env id title options tool_call s c no_policy owned) (
      let a = relay-IsAwaiting env id options tool_call false s in
      let (s', taken, _, woken) = resolve_once env id d d _ _ a in
      (
        relay-awaiting env id options tool_call false s,
        unfold relay stamp in
            publish-sends env c (bare (request_permission id options tool_call)) _ writes takes,
        unfold relay stamp in
            (publish_stream env (bare (request_permission id options tool_call)) _).1,
        wake_waiting env id _ _ a,
        (s', taken, woken),
      ))

abbrev withdrawn_at : List String → String → Option Waiter → Option Waiter
withdrawn_at pending id none = none
withdrawn_at pending id (some w) =
    some (if any_of (λ j. j == id) pending then record w { future = withdraw w.future } else w)

lookup-withdraw_all :
    (pending : List String) (id : String) (ws : Dict Waiter)
    → lookup id (withdraw_all pending ws) ≡ withdrawn_at pending id (lookup id ws)
unfolding lookup
lookup-withdraw_all pending id [] = refl
lookup-withdraw_all pending id ((k, w) ∷ ws) = elim (Bool-cases (k == id)) [
  | inl same ↦ rw same (ap (λ j. withdrawn_at pending j (some w)) ((eq_iff k id).0 same))
  | inr other ↦ rw other (lookup-withdraw_all pending id ws)
]

held_withdrawn :
    (id : String) (w : Waiter) (s : Session)
    → IsAwaiting id w s
    → lookup id (cancel_pending_permissions s).waiters ≡ some (record w { future = withdrawn })
unfolding cancel_pending_permissions
held_withdrawn id w s a = rw lookup-withdraw_all (rw (a.held, a.registered) (rw a.open_future))

wake_withdrawn :
    (env : Env) (id : String) (w : Waiter) (s : Session)
    → lookup id s.waiters ≡ some (record w { future = withdrawn })
    → wake env id s ≡ some ((leave env id w.stalled s).0, (leave env id w.stalled s).1, none)
unfolding wake resume
wake_withdrawn env id w s held = rw (held, wake)

resolve_unregistered :
    (id : String) (d : Decision) (s : Session)
    → s.pending_permissions ≡ []
    → resolve_permission id d s ≡ (s, false)
unfolding resolve_permission
resolve_unregistered id d s none_pending =
    ap
      (λ p.
        if any_of (λ j. j == id) p then resolve_waiter id d (lookup id s.waiters) s else (s, false))
      none_pending

-- When the session is torn down, an awaited request is released without a decision, and no answer
-- to it is taken any more.
pub cancel_pending_permissions_lem :
    (env : Env) (id : String) (d : Decision) (w : Waiter) (s : Session)
    → IsAwaiting id w s
    → (resolve_permission id d (cancel_pending_permissions s)
        ≡ (cancel_pending_permissions s, false))
      × ((t : Session) × (es : List Effect) × (wake env id (cancel_pending_permissions s)
            ≡ some (t, es, none)))
cancel_pending_permissions_lem env id d w s a = (
  resolve_unregistered id d _ (unfold cancel_pending_permissions in refl),
  (_, _, wake_withdrawn env id w _ (held_withdrawn id w s a)),
)
