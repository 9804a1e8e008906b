-- ===== src/Daemon/Open.antt =====
-- `_handle_open` of blemees_agent/daemon.py. What the agent answers when it is spawned is an
-- argument.
use blemees_agent.Prelude.{
  if◌then◌else◌, or_else, from_option, Dict, insert, ℕ, String, Bool, true, false, ◌||◌, Option,
  none, some, List, [], ◌∷◌, ◌++◌, ◌==◌,
}
use blemees_agent.Value.{Value, text, bool, as_text, as_array}
use blemees_agent.Errors.{
  Failure, Result, ok, err, ◌>>=◌, code_of, session_exists_error, auth_required_error,
  spawn_failed_error,
}
use blemees_agent.Protocol.{get}
use blemees_agent.Protocol.Messages.{OpenMessage}
use blemees_agent.Registry.{upsert, save, get_record, get_true}
use blemees_agent.Session.{Session, Env, new_session}
use blemees_agent.Session.Events.{or_none}
use blemees_agent.Session.Attach.{attach}
use blemees_agent.Supervisor.{resolve, make_handle}
use blemees_agent.Supervisor.Profiles.{Agent, Profile, armed}
use blemees_agent.Table.{register, remove}
use blemees_agent.Daemon.{
  opened_reply, error_reply, DaemonEffect, reply, Daemon, Handled, finished, raises, change, own,
  try_get, put_session, session_effects, table_effects, set_table, is_running, Spawned, backend_of,
  take_from, told, set_registry,
}

-- `msg.options.get("cwd")`, where it is a text
abbrev pub cwd_of : OpenMessage → Option String
cwd_of msg = elim (get "cwd" msg.options) [ none ↦ none | some v ↦ as_text v ]

-- The triggers that are armed: the profile's, unless the message overrides them.
unfoldable pub triggers_for : OpenMessage → Profile → List String
triggers_for msg profile = elim (get "attention_triggers" msg.options) [
  | none ↦ profile.attention_triggers
  | some v ↦ elim (as_array v) [ none ↦ profile.attention_triggers | some vs ↦ armed vs [] ]
]

-- The session is wired to its profile and to the notify service.
unfoldable pub wired : OpenMessage → Profile → Session → Session
unfolding triggers_for
wired msg profile s = record s {
  permission_policy = profile.permission_policy;
  has_notify = true;
  profile_name = some profile.name;
  attention_triggers = triggers_for msg profile;
}

-- The session that is opened: the one that is there, taken over from its owner, or a new one.
unfoldable pub claim :
    ℕ → ℕ → OpenMessage → Option Session → Daemon → Result (Daemon × List DaemonEffect × Session)
unfolding take_from new_session
claim c now msg (some s) d =
    if msg.resume
    then (let t = take_from s.connection_id c msg.session_id d in
        ok (record t.0 { open_msgs = insert msg.session_id msg t.0.open_msgs }, t.1, s))
    else err (session_exists_error msg.session_id)
claim c now msg none d =
    let s = new_session msg.session_id (cwd_of msg) d.ring_buffer_size now in
    register s d.table >>= λ t.
    ok (record d { table = t; open_msgs = insert msg.session_id msg d.open_msgs }, [], s)

-- What the session takes over of the handle that was spawned.
unfoldable pub adopt : Spawned → Session → Session
adopt info s = record s {
  backend = some (backend_of info);
  native_session_id = or_else (or_none info.native_session_id) s.native_session_id;
  last_model = or_else (or_none info.model) s.last_model;
  view_only = info.view_only;
}

-- The session is taken out again, and the code of the failure is the reply.
unfoldable pub give_up : ℕ → OpenMessage → Failure → Daemon → List DaemonEffect → Handled
give_up c msg e d es =
    let r = remove msg.session_id false d.table in
    finished (set_table r.0 d) (
      es
      ++ table_effects r.1
      ++ reply c (error_reply (code_of e) msg.id (some msg.session_id)) ∷ [])

-- A spawn that failed: what is no failure of authentication or of the spawn is left to `_dispatch`,
-- with the session in the table.
unfoldable pub spawn_failed : ℕ → OpenMessage → Failure → Daemon → List DaemonEffect → Handled
unfolding give_up
spawn_failed c msg (auth_required_error why) d es = give_up c msg (auth_required_error why) d es
spawn_failed c msg (spawn_failed_error why) d es = give_up c msg (spawn_failed_error why) d es
spawn_failed c msg e d es = raises d es e

-- The fields that the registry is told of the session.
abbrev pub opt_value : Option String → Value
opt_value none = Value.null
opt_value (some s) = text s

abbrev pub record_of : OpenMessage → Profile → Agent → Session → Dict Value
record_of msg profile agent s =
    ("profile", text profile.name)
    ∷ ("agent", text agent.name)
    ∷ ("native_session_id", opt_value s.native_session_id)
    ∷ ("cwd", from_option Value.null (or_else (get_true "cwd" msg.options) agent.agent_home))
    ∷ ("model", from_option Value.null agent.model)
    ∷ ("view_only", bool s.view_only)
    ∷ []

-- `native_session_id` of the reply: the agent's own live id, where it is another.
abbrev pub native_of : Session → String → Option String
native_of s id = elim s.native_session_id [
  | none ↦ none
  | some native ↦ if s.view_only || native == "" || native == id then none else some native
]

-- The connection owns the session, which is recorded; the reply goes out before the replay.
unfoldable pub serve_open :
    Env → ℕ → ℕ → OpenMessage → Profile → Agent → Session → Daemon → List DaemonEffect → Handled
serve_open env c now msg profile agent s d es =
    let id = msg.session_id in
    let a = attach env c (some (from_option 0 msg.last_seen_seq)) s in
    let ack = opened_reply msg.id id profile.name agent.name s.seq s.view_only (native_of s id) in
    let d1 = change c (own id) d in
    let d2 = set_registry (save (upsert now id (record_of msg profile agent s) d1.registry)) d1 in
    finished (told env a.1 (put_session id a.0 d2)) (es ++ reply c ack ∷ session_effects id a.1)

-- The agent's session that is to be loaded: the live session's, or that of the registry.
abbrev pub resume_id : OpenMessage → Session → Daemon → Option String
resume_id msg s d =
    if msg.resume
    then or_else s.native_session_id (elim (get_record msg.session_id d.registry) [
      | none ↦ none
      | some rec ↦ elim (get "native_session_id" rec) [ none ↦ none | some v ↦ as_text v ]
    ])
    else none

-- The backend is spawned where none runs.
unfoldable pub spawn_open :
    Bool
    → Env
    → ℕ
    → ℕ
    → OpenMessage
    → (Option String → Result Spawned)
    → Profile
    → Agent
    → Session
    → Daemon
    → List DaemonEffect
    → Handled
unfolding adopt
spawn_open true env c now msg answer profile agent s d es =
    serve_open env c now msg profile agent s (put_session msg.session_id s d) es
spawn_open false env c now msg answer profile agent s d es =
    elim (make_handle msg.profile msg.agent d.supervisor) [
      | err e ↦ raises (put_session msg.session_id s d) es e
      | ok supervisor ↦
          let d1 = record (put_session msg.session_id s d) { supervisor = supervisor } in
          elim (answer (resume_id msg s d)) [
            | err e ↦ spawn_failed c msg e d1 es
            | ok info ↦ serve_open env c now msg profile agent (adopt info s) d1 es
          ]
    ]

-- `_handle_open`
unfoldable pub handle_open :
    Env → ℕ → ℕ → OpenMessage → (Option String → Result Spawned) → Daemon → Handled
handle_open env c now msg answer d = elim (resolve msg.profile msg.agent d.supervisor) [
  | err e ↦ raises d [] e
  | ok found ↦ elim found.1 [
    | none ↦ raises d [] Failure.type_error
    | some agent ↦ elim (claim c now msg (try_get msg.session_id d) d) [
      | err e ↦ raises d [] e
      | ok claimed ↦
          let s = wired msg found.0 claimed.2 in
          spawn_open (is_running s.backend) env c now msg answer found.0 agent s claimed.0 claimed.1
    ]
  ]
]

-- `_handle_open` up to the `await` of the spawn, where no backend runs: the session is in the table,
-- wired, and the supervisor has made a process for it. Other messages, events and rounds of the
-- reaper may come before the spawn is over.
unfoldable pub begin_open : ℕ → ℕ → OpenMessage → Daemon → Handled
begin_open c now msg d = elim (resolve msg.profile msg.agent d.supervisor) [
  | err e ↦ raises d [] e
  | ok found ↦ elim found.1 [
    | none ↦ raises d [] Failure.type_error
    | some agent ↦ elim (claim c now msg (try_get msg.session_id d) d) [
      | err e ↦ raises d [] e
      | ok claimed ↦
          let put = put_session msg.session_id (wired msg found.0 claimed.2) claimed.0 in
          elim (make_handle msg.profile msg.agent claimed.0.supervisor) [
            | err e ↦ raises put claimed.1 e
            | ok supervisor ↦ finished (record put { supervisor = supervisor }) claimed.1
          ]
    ]
  ]
]

-- The rest for a session that was taken out of the table meanwhile: `old` is its object, which the
-- handler still has.
unfoldable pub serve_removed :
    Env → ℕ → ℕ → OpenMessage → Profile → Agent → Session → Daemon → Handled
serve_removed env c now msg profile agent old d =
    let id = msg.session_id in
    let a = attach env c (some (from_option 0 msg.last_seen_seq)) old in
    let ack =
      opened_reply msg.id id profile.name agent.name old.seq old.view_only (native_of old id) in
    let d1 = change c (own id) d in
    let d2 = set_registry (save (upsert now id (record_of msg profile agent old) d1.registry)) d1 in
    finished (told env a.1 d2) (reply c ack ∷ session_effects id a.1)

-- `_handle_open` from the end of the spawn on, with what came of it.
unfoldable pub end_open :
    Env → ℕ → ℕ → OpenMessage → Profile → Agent → Session → Result Spawned → Daemon → Handled
unfolding adopt
end_open env c now msg profile agent old answered d = elim answered [
  | err e ↦ spawn_failed c msg e d []
  | ok info ↦ elim (try_get msg.session_id d) [
    | some s ↦ serve_open env c now msg profile agent (adopt info s) d []
    | none ↦ serve_removed env c now msg profile agent (adopt info old) d
  ]
]
