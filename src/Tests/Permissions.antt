-- ===== src/Tests/Permissions.antt =====
-- Permission requests of an owned session (blemees_agent/session.py).
use blemees_agent.EventLog.Ring.{append}
use blemees_agent.Prelude.{All, In, lookup, ◌≡◌, refl, ◌⊎◌, true, false, none, some, List, [], ◌∷◌}
use blemees_agent.Value.{text, null}
use blemees_agent.EventLog.{PermissionOption}
use blemees_agent.Session.{
  Session, Env, Effect, send, allow, deny, Decision, selected, cancelled, Waiter, waiting,
  new_session,
}
use blemees_agent.Session.Permission.{
  ask, awaiting, answered, auto_decision, is_of_kind, policy_decision, resolve_permission,
  cancel_pending_permissions, wake, kind_at,
}
use blemees_agent.Protocol.{get}
use blemees_agent.Session.Permission.Policy.{auto_decision_lem, ask_denied}
use blemees_agent.Session.Permission.Relay.{
  IsAwaiting, resolve_once, request_frame, ask-resolve, cancel_pending_permissions_lem,
}

abbrev world : Env
world = record { accepts = λ c f. true; disk_ok = λ f. true; now_ms = 7 }

abbrev offered : List PermissionOption
offered =
    record { option_id = "a"; name = "Allow"; kind = "allow_once" }
    ∷ record { option_id = "r"; name = "Reject"; kind = "reject_once" }
    ∷ []

abbrev owned : Session
owned = record (new_session "s-1" none 2 5) { connection_id = some 4; writer = some 4 }

abbrev denying : Session
denying = record owned { permission_policy = ("mode", text "deny") ∷ [] }

abbrev waiter : Waiter
waiter = record { options = offered; stalled = false; future = waiting }

abbrev asked : Session
asked = record owned { pending_permissions = "p-1" ∷ []; waiters = ("p-1", waiter) ∷ [] }

asked-IsAwaiting : IsAwaiting "p-1" waiter asked
unfolding lookup
asked-IsAwaiting = record { registered = refl; held = refl; open_future = refl }

auto_decision_lem_example :
    ((o : PermissionOption) × (auto_decision offered deny ≡ selected o.option_id)
      × In o offered
      × (is_of_kind deny o ≡ true))
    ⊎ ((auto_decision offered deny ≡ cancelled none) × All (λ o. is_of_kind deny o ≡ false) offered)
auto_decision_lem_example = auto_decision_lem offered deny

ask_denied_example :
    (d : Decision) × (ask world "p-1" none offered null denying ≡ (denying, [], answered d))
    × ((d ≡ cancelled none)
        ⊎ ((o : PermissionOption) × (d ≡ selected o.option_id)
            × In o offered
            × (is_of_kind allow o ≡ false)))
unfolding new_session kind_at get lookup
ask_denied_example = ask_denied world "p-1" none offered null denying refl

resolve_once_example :
    (s' : Session) × (resolve_permission "p-1" (selected "a") asked ≡ (s', true))
    × (resolve_permission "p-1" (selected "r") s' ≡ (s', false))
    × ((t : Session) × (es : List Effect) × (wake world "p-1" s'
          ≡ some (t, es, some (selected "a"))))
resolve_once_example =
    resolve_once world "p-1" (selected "a") (selected "r") waiter asked asked-IsAwaiting

ask-resolve_example :
    ((ask world "p-1" none offered null owned).2 ≡ awaiting "p-1")
    × In
        (send 4 (request_frame "p-1" offered null owned))
        (ask world "p-1" none offered null owned).1
    × ((ask world "p-1" none offered null owned).0.ring
        ≡ append owned.ring (request_frame "p-1" offered null owned))
    × (wake world "p-1" (ask world "p-1" none offered null owned).0 ≡ none)
    × ((s' : Session) × (resolve_permission "p-1"
            (selected "r")
            (ask world "p-1" none offered null owned).0
          ≡ (s', true))
        × ((t : Session) × (es : List Effect) × (wake world "p-1" s'
              ≡ some (t, es, some (selected "r")))))
unfolding new_session policy_decision kind_at get lookup
ask-resolve_example =
    ask-resolve world "p-1" none offered null owned 4 (selected "r") refl refl refl refl

cancel_pending_permissions_lem_example :
    (resolve_permission "p-1" (selected "a") (cancel_pending_permissions asked)
      ≡ (cancel_pending_permissions asked, false))
    × ((t : Session) × (es : List Effect) × (wake world "p-1" (cancel_pending_permissions asked)
          ≡ some (t, es, none)))
cancel_pending_permissions_lem_example =
    cancel_pending_permissions_lem world "p-1" (selected "a") waiter asked asked-IsAwaiting
