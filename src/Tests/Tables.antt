-- ===== src/Tests/Tables.antt =====
-- A table of one detached session (blemees_agent/session.py).
use blemees_agent.Prelude.{
  ◌⊎◌, if◌then◌else◌, In, lookup, insert, String, ◌≡◌, refl, true, false, none, some, [], ◌∷◌,
  arith, ◌==◌,
}
use blemees_agent.EventLog.{result}
use blemees_agent.Session.{Session, Env, soft_kill, new_session}
use blemees_agent.Session.Events.{bare, on_event}
use blemees_agent.Session.Attach.{attach}
use blemees_agent.Table.{
  SessionTable, register, reap_idle, detach_all_for_connection, detach_session, owned_by,
}
use blemees_agent.Table.Bounds.{IsValid, register-IsValid}
use blemees_agent.Table.Reaper.{IsOverdue, reap_idle-lookup}
use blemees_agent.Table.Detach.{lookup-detach_all}
use blemees_agent.Table.Detach.Reattach.{on_event-reattached}

abbrev world : Env
world = record { accepts = λ c f. true; disk_ok = λ f. true; now_ms = 7 }

abbrev detached : Session
detached = record (new_session "s-1" none 2 5) { detached_at = some 10 }

abbrev owned : Session
owned = record (new_session "s-2" none 2 5) { connection_id = some 4 }

abbrev table : SessionTable
table = record { sessions = ("s-1", detached) ∷ []; idle_timeout_s = 60; max_concurrent = 2 }

abbrev both : SessionTable
both = record {
  sessions = ("s-1", detached) ∷ ("s-2", owned) ∷ [];
  idle_timeout_s = 60;
  max_concurrent = 2;
}

table-IsValid : IsValid table
unfolding new_session lookup
table-IsValid = record { distinct = (refl, tt); keyed = (refl, tt); bounded = omega arith }

both-IsValid : IsValid both
unfolding new_session lookup
both-IsValid = record {
  distinct = (refl, (refl, tt));
  keyed = (refl, (refl, tt));
  bounded = omega arith;
}

register-IsValid_example :
    IsValid both
    × (lookup owned.session_id table.sessions ≡ none)
    × ((j : String)
        → lookup j both.sessions
          ≡ (if owned.session_id == j then some owned else lookup j table.sessions))
unfolding register new_session insert lookup
register-IsValid_example = register-IsValid owned table both table-IsValid refl

reap_idle-lookup_example :
    ((IsOverdue 70 60 detached × (lookup "s-1" (reap_idle 70 both).0.sessions ≡ none))
      ⊎ ((¬ IsOverdue 70 60 detached)
          × (lookup "s-1" (reap_idle 70 both).0.sessions ≡ some detached)))
    × IsValid (reap_idle 70 both).0
unfolding lookup
reap_idle-lookup_example = reap_idle-lookup 70 both "s-1" detached both-IsValid refl

lookup-detach_all_example :
    (lookup "s-2" (detach_all_for_connection 20 4 both).0.sessions
      ≡ some (if owned_by 4 owned then (detach_session 20 owned).0 else owned))
    × (owned_by 4 (if owned_by 4 owned then (detach_session 20 owned).0 else owned) ≡ false)
unfolding lookup
lookup-detach_all_example = lookup-detach_all 20 4 both "s-2" owned both-IsValid refl

abbrev at_work : Session
at_work = record owned { backend = some (record { running = true; turn_active = true }) }

on_event-reattached_example :
    ((attach world 5 (some 0) (detach_session 20 at_work).0).0.connection_id ≡ some 5)
    × In soft_kill
        (on_event world
          (bare (result none none))
          (attach world 5 (some 0) (detach_session 20 at_work).0).0).1
on_event-reattached_example =
    on_event-reattached world 20 5 (some 0) none none at_work
      (record { running = true; turn_active = true }) refl refl
