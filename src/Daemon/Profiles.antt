-- ===== src/Daemon/Profiles.antt =====
-- The handlers of blemees_agent/daemon.py for profiles, and for the test of the notifications.
use blemees_agent.Prelude.{
  if◌then◌else◌, is_some, keep_if, values, ℕ, String, Bool, false, Option, none, some, List, [],
  ◌∷◌, ◌==◌,
}
use blemees_agent.Errors.{Result, ok, err, profile_in_use}
use blemees_agent.Notify.{test}
use blemees_agent.Protocol.Messages.{ProfileActionMessage, ProfileMutateMessage, NotifyTestMessage}
use blemees_agent.Session.{Session}
use blemees_agent.Supervisor.{Supervisor, stop, webhook_url_for}
use blemees_agent.Supervisor.Crud.{create_profile, update_profile, delete_profile}
use blemees_agent.Daemon.{
  Reply, profile_stopped, profile_created, profile_updated, profile_deleted, notify_test_result,
  error_reply, reply, Daemon, Handled, finished, raises, set_supervisor,
}

abbrev pub is_bound : String → Session → Bool
is_bound name s = elim s.profile_name [ none ↦ false | some p ↦ p == name ]

-- `_live_sessions_for_profile`: attached or not.
unfoldable pub live_sessions_for : String → Daemon → List Session
live_sessions_for name d = keep_if (is_bound name) (values d.table.sessions)

-- What the supervisor made of a request: its new state and the reply, or what it raised.
abbrev pub answered_by : ℕ → Reply → Daemon → Result Supervisor → Handled
answered_by c ack d (ok s) = finished (set_supervisor s d) (reply c ack ∷ [])
answered_by c ack d (err e) = raises d [] e

-- `_handle_profile_stop`
unfoldable pub handle_profile_stop : ℕ → ProfileActionMessage → Daemon → Handled
handle_profile_stop c msg d = elim (stop (some msg.name) d.supervisor) [
  | err e ↦ raises d [] e
  | ok r ↦
      finished (record d { supervisor = r.1 }) (reply c (profile_stopped msg.id msg.name r.0) ∷ [])
]

-- `_handle_profile_create`
unfoldable pub handle_profile_create : (String → Bool) → ℕ → ProfileMutateMessage → Daemon → Handled
handle_profile_create which c msg d =
    answered_by c (profile_created msg.id msg.name) d
      (create_profile which msg.name msg.profile d.supervisor)

-- A profile with a live session is in use.
abbrev pub unless_in_use : ℕ → Option String → String → Daemon → Handled → Handled
unless_in_use c id name d next = elim (live_sessions_for name d) [
  | [] ↦ next
  | s ∷ rest ↦ finished d (reply c (error_reply profile_in_use id none) ∷ [])
]

-- `_handle_profile_update`
unfoldable pub handle_profile_update : (String → Bool) → ℕ → ProfileMutateMessage → Daemon → Handled
handle_profile_update which c msg d = unless_in_use c msg.id msg.name d (
    answered_by c (profile_updated msg.id msg.name) d
      (update_profile which msg.name msg.profile d.supervisor))

-- `_handle_profile_delete`
unfoldable pub handle_profile_delete : ℕ → ProfileActionMessage → Daemon → Handled
handle_profile_delete c msg d =
    unless_in_use c msg.id msg.name d
      (answered_by c (profile_deleted msg.id msg.name) d (delete_profile msg.name d.supervisor))

-- `msg.profile or "default"`
abbrev pub profile_or_default : Option String → String
profile_or_default none = "default"
profile_or_default (some name) = if name == "" then "default" else name

-- `_handle_notify_test`
unfoldable pub handle_notify_test : ℕ → ℕ → NotifyTestMessage → Daemon → Handled
handle_notify_test now c msg d =
    let name = profile_or_default msg.profile in
    finished (record d { notify = test name now d.notify })
      (reply c (notify_test_result msg.id name (is_some (webhook_url_for (some name) d.supervisor)))
        ∷ [])
