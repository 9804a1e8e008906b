-- ===== src/Tests/Daemons.antt =====
-- A daemon with two connections and a session (blemees_agent/daemon.py).
use blemees_agent.Prelude.{
  from_option, nat_eq, nat_eq_iff, Bool-cases, In, lookup, insert, ℕ, String, ◌≡◌, refl, ap, inl,
  inr, Bool, true, false, none, some, List, [], ◌∷◌, arith, ◌==◌,
}
use blemees_agent.Value.{text}
use blemees_agent.Errors.{ok, err, request_error, spawn_failed_error, profile_in_use}
use blemees_agent.Notify.{no_service}
use blemees_agent.Protocol.{get}
use blemees_agent.Protocol.Messages.{
  OpenMessage, AttachMessage, CloseMessage, ProfileActionMessage, ProfileMutateMessage, owner,
}
use blemees_agent.Registry.{Registry}
use blemees_agent.Session.Attach.{
  attach, replay_to, send_all, replay_frames, gap_of, ring_gap, empty_gap, after_replay,
}
use blemees_agent.EventLog.Ring.{earliest_seq}
use blemees_agent.Session.Events.{clear_attention}
use blemees_agent.Session.{Session, Env, new_session}
use blemees_agent.Supervisor.{
  Supervisor, resolve, make_handle, get_profile, default_agent_of, process_for, at_key, pop_key,
  put_key,
}
use blemees_agent.Supervisor.Profiles.{Config, Profile, Agent, synthesised}
use blemees_agent.Table.{SessionTable, register}
use blemees_agent.Daemon.{
  Connection, Daemon, reply, error_reply, taken_notice, finished, Spawned, owns, lookup_connection,
  take_from,
}
use blemees_agent.Daemon.Open.{
  claim, wired, triggers_for, spawn_open, adopt, serve_open, handle_open, end_open,
}
use blemees_agent.Daemon.Attach.{handle_attach, attach_owner}
use blemees_agent.Daemon.Profiles.{handle_profile_update, handle_profile_delete}
use blemees_agent.Daemon.Steps.{reap, accept, settle}
use blemees_agent.Daemon.Dispatch.{
  open_request, close_request, attach_request, open_ended, Happening, accepted, asked, happen, run,
  dispatch, handle,
}
use blemees_agent.Daemon.Dispatch.Ownership.{happen-IsLinked, run-sole_owner}
use blemees_agent.Daemon.Dispatch.Refusals.{OnlyReplies, dispatch-foreign, profile_in_use-refused}
use blemees_agent.Daemon.Ownership.Spawn.{end_open-shared}
use blemees_agent.Daemon.Ownership.{IsLinked, owner_of}
use blemees_agent.Daemon.Ownership.Takeover.{handle_attach-takeover}
use blemees_agent.Daemon.Leaks.{handle_open-unreaped, handle_open-orphaned}

abbrev world : Env
world = record { accepts = λ c f. true; disk_ok = λ f. true; now_ms = 7 }

abbrev config : Config
config = record {
  agent_command = "claude-agent-acp";
  agent_args = [];
  profiles = [];
  notify_webhook_url = none;
  notify_webhook_format = "json";
}

abbrev profile : Profile
profile = synthesised config

abbrev agent : Agent
agent = record {
  name = "default";
  command = text "claude-agent-acp";
  args = [];
  model = none;
  mode = none;
  agent_home = none;
  mcp_servers = [];
  env = [];
}

abbrev supervisor : Supervisor
supervisor = record {
  config = config;
  registry = none;
  profiles = ("default", profile) ∷ [];
  static_names = "default" ∷ [];
  processes = [];
  idle_since = [];
  closed = [];
}

-- The supervisor once a process was made.
abbrev handled : Supervisor
handled = record supervisor {
  processes = (("default", "default"), record { number = 0; session_count = 0 }) ∷ [];
}

abbrev registry : Registry
registry = record { persistent = false; writable = true; file = none; records = []; profiles = [] }

abbrev idle : Daemon
idle = record {
  table = record { sessions = []; idle_timeout_s = 60; max_concurrent = 8 };
  open_msgs = [];
  registry = registry;
  supervisor = supervisor;
  notify = no_service;
  connections = [];
  ring_buffer_size = 4;
}

-- Connection 1 owns the session, connection 2 has none.
abbrev held : Session
held = record (new_session "s-1" none 4 5) { connection_id = some 1; profile_name = some "default" }

abbrev first : Connection
first = record { id = 1; owned = "s-1" ∷ []; watched = [] }

abbrev second : Connection
second = record { id = 2; owned = []; watched = [] }

abbrev shared : Daemon
shared = record idle {
  table = record { sessions = ("s-1", held) ∷ []; idle_timeout_s = 60; max_concurrent = 8 };
  connections = first ∷ second ∷ [];
}

shared_linked :
    (c : ℕ) (id : String) → owns c id shared ≡ true → owner_of id shared.table.sessions ≡ some c
unfolding owns lookup_connection lookup new_session
shared_linked c id h = elim (Bool-cases (nat_eq 1 c)) [
  | inl is_first ↦ elim (Bool-cases ("s-1" == id)) [
    | inl there ↦ rw there (ap some ((nat_eq_iff 1 c).0 is_first))
    | inr away ↦ let bad : false ≡ true = rw (is_first, away, owns, lookup_connection) at h in cc
  ]
  | inr other ↦ elim (Bool-cases (nat_eq 2 c)) [
    | inl is_second ↦
        let bad : false ≡ true = rw (other, is_second, owns, lookup_connection) at h in cc
    | inr nobody ↦ let bad : false ≡ true = rw (other, nobody, owns, lookup_connection) at h in cc
  ]
]

shared-IsLinked : IsLinked shared
unfolding new_session lookup owns
shared-IsLinked = record {
  valid = record { distinct = (refl, tt); keyed = (refl, tt); bounded = omega arith };
  linked = shared_linked;
}

idle-IsLinked : IsLinked idle
unfolding lookup_connection
idle-IsLinked = record {
  valid = record { distinct = tt; keyed = tt; bounded = omega arith };
  linked = λ c id h. cc;
}

abbrev opening : String → Bool → OpenMessage
opening id resume = record {
  id = some "r";
  session_id = id;
  options = [];
  resume = resume;
  profile = none;
  agent = none;
  last_seen_seq = none;
  alias = none;
}

abbrev spawned : Spawned
spawned = record { native_session_id = some "a"; view_only = false; model = none; running = true }

abbrev attaching : AttachMessage
attaching = record { id = none; session_id = "s-1"; role = owner; last_seen_seq = none }

abbrev closing : CloseMessage
closing = record { id = none; session_id = "s-1"; delete = false }

abbrev any : String → Bool
any c = true

-- Two clients come, the first opens a session, the second takes it over, the first goes.
abbrev story : List Happening
story =
    accepted 1
    ∷ accepted 2
    ∷ asked world 1 5 (some "r") (some "s-1") (open_request (opening "s-1" false) (λ o. ok spawned))
    ∷ asked world 2 6 none (some "s-1") (attach_request attaching)
    ∷ []

-- Connection 1 opens its session again, and the agent is there.
abbrev reopened : Happening
reopened = open_ended world 1 5 (opening "s-1" true) profile agent held (ok spawned)

happen-IsLinked_example : IsLinked (happen any reopened shared)
unfolding lookup new_session
happen-IsLinked_example =
    happen-IsLinked any reopened shared shared-IsLinked (
      held,
      refl,
      λ k h. ap (from_option 1) (shared-IsLinked.linked k "s-1" h),
      inr (spawned, refl),
    )

dispatch-foreign_example :
    ((dispatch any world 2 6 none (some "s-1") (close_request closing) shared).0 ≡ shared)
    × OnlyReplies 2 (dispatch any world 2 6 none (some "s-1") (close_request closing) shared).1
unfolding owns lookup_connection
dispatch-foreign_example =
    dispatch-foreign any world 2 6 none (some "s-1") (close_request closing) "s-1" shared refl refl

abbrev update : ProfileMutateMessage
update = record { id = none; name = "default"; profile = [] }

abbrev delete : ProfileActionMessage
delete = record { id = none; name = "default" }

profile_in_use-refused_example :
    (handle_profile_update any 2 update shared
      ≡ finished shared (reply 2 (error_reply profile_in_use none none) ∷ []))
    × (handle_profile_delete 2 delete shared
        ≡ finished shared (reply 2 (error_reply profile_in_use none none) ∷ []))
unfolding lookup new_session
profile_in_use-refused_example =
    profile_in_use-refused any 2 update delete "s-1" held shared refl refl refl

handle_attach-takeover_example :
    (owns 2 "s-1" (handle_attach world 2 attaching shared).0 ≡ true)
    × (owns 1 "s-1" (handle_attach world 2 attaching shared).0 ≡ false)
    × (owner_of "s-1" (handle_attach world 2 attaching shared).0.table.sessions ≡ some 2)
    × In (reply 1 (taken_notice "s-1")) (handle_attach world 2 attaching shared).1
unfolding lookup lookup_connection new_session
handle_attach-takeover_example =
    handle_attach-takeover world 2 1 attaching shared held second first shared-IsLinked refl refl
      refl refl refl refl

abbrev anew : SessionTable
anew = record {
  sessions = ("s-2", new_session "s-2" none 4 5) ∷ [];
  idle_timeout_s = 60;
  max_concurrent = 8;
}

handle_open-unreaped_example :
    (s : Session) × (lookup "s-2"
        (reap 900
          (handle_open world 1 5
            (opening "s-2" false)
            (λ o. err (request_error "limit"))
            idle).0).0.table.sessions
      ≡ some s)
    × (s.connection_id ≡ none)
unfolding lookup register new_session resolve get_profile default_agent_of make_handle process_for
    at_key pop_key put_key insert get
handle_open-unreaped_example =
    handle_open-unreaped world 1 5 900 (opening "s-2" false) (λ o. err (request_error "limit")) idle
      anew profile agent handled "limit" idle-IsLinked refl refl refl refl (λ o. refl)

handle_open-orphaned_example :
    (lookup "s-1"
        (handle_open world 1 5
          (opening "s-1" true)
          (λ o. err (spawn_failed_error "gone"))
          shared).0.table.sessions
      ≡ none)
    × (owns 1 "s-1"
          (handle_open world 1 5
            (opening "s-1" true)
            (λ o. err (spawn_failed_error "gone"))
            shared).0
        ≡ true)
unfolding lookup owns lookup_connection new_session resolve get_profile default_agent_of make_handle
    process_for at_key pop_key put_key
handle_open-orphaned_example =
    handle_open-orphaned world 1 5 (opening "s-1" true) (λ o. err (spawn_failed_error "gone"))
      shared held profile agent handled "gone" shared-IsLinked refl refl refl refl refl refl
      (λ o. refl)

run-sole_owner_example : ◌≡◌ {A = ℕ} 2 2
unfolding run happen dispatch handle settle accept owns lookup_connection handle_open claim wired
    triggers_for spawn_open adopt serve_open handle_attach attach_owner take_from attach replay_to
    resolve get_profile default_agent_of make_handle process_for at_key pop_key put_key lookup
    insert register new_session get clear_attention send_all replay_frames gap_of ring_gap
    earliest_seq empty_gap after_replay
run-sole_owner_example =
    run-sole_owner any story idle 2 2 "s-1" refl refl
      (tt, (tt, (inr (λ o. (spawned, refl)), (tt, tt)))) refl refl

-- Connection 2 opens the session that connection 1 has taken while the agent was spawned.
end_open-shared_example :
    (owns 2 "s-1" (end_open world 2 5 (opening "s-1" true) profile agent held (ok spawned) shared).0
      ≡ true)
    × (owns 1 "s-1"
          (end_open world 2 5 (opening "s-1" true) profile agent held (ok spawned) shared).0
        ≡ true)
    × (¬ IsLinked
        (end_open world 2 5 (opening "s-1" true) profile agent held (ok spawned) shared).0)
unfolding lookup owns lookup_connection new_session
end_open-shared_example =
    end_open-shared world 2 1 5 (opening "s-1" true) profile agent held held spawned shared second
      refl refl refl refl
