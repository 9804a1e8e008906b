-- ===== src/Daemon/Dispatch/Ownership.antt =====
-- The ownership of sessions across runs of the daemon (blemees_agent/daemon.py).
use blemees_agent.Prelude.{
  List-cases, Option-cases, inr, is_some, length, ℕ, String, ◌≡◌, refl, sym, ap, inl, inr, Bool,
  true, Option, some, List, [], ◌∷◌, arith,
}
use mathlib.Core.Path.{subst}
use blemees_agent.Errors.{Result, ok, err, Result-cases}
use blemees_agent.Protocol.Messages.{ProfileActionMessage, SessionInfoMessage}
use blemees_agent.Session.{Env}
use blemees_agent.Supervisor.{Supervisor, stop}
use blemees_agent.Table.Bounds.{Distinct, Keyed}
use blemees_agent.Daemon.{
  Connection, Daemon, Handled, Reply, is_running, try_get, owns, lookup_connection,
}
use blemees_agent.Daemon.Profiles.{
  live_sessions_for, answered_by, unless_in_use, handle_profile_stop, handle_profile_create,
  handle_profile_update, handle_profile_delete, handle_notify_test,
}
use blemees_agent.Daemon.Ownership.Spawn.{IsUndisturbed, begin_open-IsLinked, end_open-IsLinked}
use blemees_agent.Daemon.Open.{begin_open, end_open}
use blemees_agent.Daemon.Info.{handle_session_info}
use blemees_agent.Session.Summary.{usage_snapshot}
use blemees_agent.Registry.{get_record}
use blemees_agent.Prelude.Int.{ℤ}
use blemees_agent.Value.{Value}
use blemees_agent.Daemon.Views.{handle_ping}
use blemees_agent.Daemon.Steps.{settle}
use blemees_agent.Daemon.Dispatch.{
  Request, open_request, prompt_request, cancel_request, close_request, ping_request,
  attach_request, detach_request, permission_request, stop_request, delete_request, create_request,
  update_request, notify_test_request, info_request, open_began, open_ended, handle, dispatch,
  Happening, accepted, hung_up, asked, spoke, turned, reaped, happen, run,
}
use blemees_agent.Daemon.Ownership.{IsLinked, owned_in, owned_of-owns}
use blemees_agent.Daemon.Ownership.Frame.{Keeps, Keeps-refl, Keeps-same, Keeps-IsLinked}
use blemees_agent.Daemon.Ownership.Transfer.{IsLinked-unique}
use blemees_agent.Daemon.Ownership.Drive.{
  handle_prompt-Keeps, handle_cancel-Keeps, handle_permission_response-Keeps, handle_close-IsLinked,
}
use blemees_agent.Daemon.Ownership.Attach.{handle_attach-IsLinked, handle_detach-IsLinked}
use blemees_agent.Daemon.Ownership.Open.{IsSafeSpawn, handle_open-IsLinked}
use blemees_agent.Daemon.Ownership.Steps.{
  accept-IsLinked, agent_event-Keeps, backend_turns-Keeps, reap-IsLinked, hang_up-IsLinked,
}

answered_by-Keeps :
    (c : ℕ) (ack : Reply) (d : Daemon) (r : Result Supervisor) → Keeps d (answered_by c ack d r).0
answered_by-Keeps c ack d (ok s) = Keeps-same d _ refl refl
answered_by-Keeps c ack d (err e) = Keeps-refl d

unless_in_use-Keeps :
    (c : ℕ) (id : Option String) (name : String) (d : Daemon) (next : Handled)
    → Keeps d next.0
    → Keeps d (unless_in_use c id name d next).0
unless_in_use-Keeps c id name d next k = elim (List-cases (live_sessions_for name d)) [
  | inl e ↦ rw (e, unless_in_use) k
  | inr (s, rest, e) ↦ rw (e, unless_in_use) (Keeps-refl d)
]

handle_profile_stop-Keeps :
    (c : ℕ) (msg : ProfileActionMessage) (d : Daemon) → Keeps d (handle_profile_stop c msg d).0
unfolding handle_profile_stop
handle_profile_stop-Keeps c msg d = elim (Result-cases (stop (some msg.name) d.supervisor)) [
  | inl (e, raised) ↦ rw (raised, handle_profile_stop) (Keeps-refl d)
  | inr (r, done) ↦
      rw (done, handle_profile_stop) (Keeps-same d (record d { supervisor = r.1 }) refl refl)
]

handle_session_info-Keeps :
    (to_int : Value → Option ℤ) (c : ℕ) (msg : SessionInfoMessage) (d : Daemon)
    → Keeps d (handle_session_info to_int c msg d).0
unfolding handle_session_info
handle_session_info-Keeps to_int c msg d = elim (Option-cases (try_get msg.session_id d)) [
  | inl gone ↦ elim (Option-cases (get_record msg.session_id d.registry)) [
    | inl unknown ↦ rw (gone, unknown, handle_session_info) (Keeps-refl d)
    | inr (fields, known) ↦ rw (gone, known, handle_session_info) (Keeps-refl d)
  ]
  | inr (s, found) ↦
      elim (Result-cases
        (usage_snapshot to_int (is_some s.connection_id) (is_running s.backend) s)) [
          | inl (e, raised) ↦ rw (found, raised, handle_session_info) (Keeps-refl d)
          | inr (snapshot, there) ↦ rw (found, there, handle_session_info) (Keeps-refl d)
        ]
]

-- A message can break the link only where its sender opens again a session that it holds and the
-- spawn fails.
abbrev pub IsSafe : ℕ → Request → Daemon → Type 0
IsSafe c (open_request msg answer) d = IsSafeSpawn c msg.session_id answer d
IsSafe c _ d = Unit

-- With no connections nobody holds a session.
nobody_holds : (c : ℕ) (id : String) (ks : List Connection) → ks ≡ [] → owned_in c id ks ≡ true → ⊥
unfolding lookup_connection
nobody_holds c id [] none_there h = cc
nobody_holds c id (k ∷ ks) none_there h = cc

-- A daemon with no connections and no sessions.
IsLinked-empty : (d : Daemon) → d.connections ≡ [] → d.table.sessions ≡ [] → IsLinked d
IsLinked-empty d k t = record {
  valid = record {
    distinct = subst Distinct (sym t) tt;
    keyed = subst Keyed (sym t) tt;
    bounded = omega (arith, ap length t);
  };
  linked = λ c id h. absurd (nobody_holds c id d.connections k h);
}

module _ (which : String → Bool) where
  handle-IsLinked :
      (env : Env) (c now : ℕ) (r : Request) (d : Daemon)
      → IsLinked d
      → IsSafe c r d
      → IsLinked (handle which env c now r d).0
  unfolding handle handle_profile_create handle_profile_update handle_profile_delete
      handle_notify_test handle_ping
  handle-IsLinked env c now (open_request msg answer) d w safe =
      handle_open-IsLinked env c now msg answer d w safe
  handle-IsLinked env c now (prompt_request msg answer sent) d w safe =
      Keeps-IsLinked (handle_prompt-Keeps c msg answer sent d) w
  handle-IsLinked env c now (cancel_request msg killed) d w safe =
      Keeps-IsLinked (handle_cancel-Keeps c msg killed d) w
  handle-IsLinked env c now (close_request msg) d w safe = handle_close-IsLinked env c msg d w
  handle-IsLinked env c now (ping_request msg) d w safe = w
  handle-IsLinked env c now (attach_request msg) d w safe = handle_attach-IsLinked env c msg d w
  handle-IsLinked env c now (detach_request msg) d w safe = handle_detach-IsLinked now c msg d w
  handle-IsLinked env c now (permission_request msg) d w safe =
      Keeps-IsLinked (handle_permission_response-Keeps c msg d) w
  handle-IsLinked env c now (stop_request msg) d w safe =
      Keeps-IsLinked (handle_profile_stop-Keeps c msg d) w
  handle-IsLinked env c now (delete_request msg) d w safe =
      Keeps-IsLinked (unless_in_use-Keeps c msg.id msg.name d _ (answered_by-Keeps c _ d _)) w
  handle-IsLinked env c now (create_request msg) d w safe =
      Keeps-IsLinked (answered_by-Keeps c _ d _) w
  handle-IsLinked env c now (update_request msg) d w safe =
      Keeps-IsLinked (unless_in_use-Keeps c msg.id msg.name d _ (answered_by-Keeps c _ d _)) w
  handle-IsLinked env c now (notify_test_request msg) d w safe =
      Keeps-IsLinked (Keeps-same d _ refl refl) w
  handle-IsLinked env c now (info_request msg to_int) d w safe =
      Keeps-IsLinked (handle_session_info-Keeps to_int c msg d) w

  settle-IsLinked :
      (c : ℕ) (id session : Option String) (h : Handled)
      → IsLinked h.0
      → IsLinked (settle c id session h).0
  unfolding settle
  settle-IsLinked c id session (d, es, ok _) w = w
  settle-IsLinked c id session (d, es, err e) w = w

  abbrev pub IsSafeHappening : Happening → Daemon → Type 0
  IsSafeHappening (asked env c now id session r) d = IsSafe c r d
  IsSafeHappening (open_ended env c now msg profile agent old answered) d =
      IsUndisturbed c msg.session_id answered d
  IsSafeHappening _ d = Unit

  -- A session keeps naming the connection that holds it, and the table stays valid, at each message,
  -- event, round of the reaper, connection that comes or goes, and at each of the two parts of an
  -- open whose spawn suspends. Two cases are left out. A connection opens again a session that it
  -- holds, and the spawn fails; and when a spawn is over, another connection has taken the session
  -- meanwhile, or it is gone from the table.
  pub happen-IsLinked :
      (h : Happening) (d : Daemon) → IsLinked d → IsSafeHappening h d → IsLinked (happen which h d)
  unfolding happen dispatch
  happen-IsLinked (accepted c) d w safe = accept-IsLinked c d w
  happen-IsLinked (hung_up now c) d w safe = hang_up-IsLinked now c d w
  happen-IsLinked (asked env c now id session r) d w safe =
      settle-IsLinked c id session (handle which env c now r d)
        (handle-IsLinked env c now r d w safe)
  happen-IsLinked (spoke env id f) d w safe = Keeps-IsLinked (agent_event-Keeps env id f d) w
  happen-IsLinked (turned id b) d w safe = Keeps-IsLinked (backend_turns-Keeps id b d) w
  happen-IsLinked (reaped now) d w safe = reap-IsLinked now d w
  happen-IsLinked (open_began c now msg) d w safe =
      settle-IsLinked c msg.id (some msg.session_id) (begin_open c now msg d)
        (begin_open-IsLinked c now msg d w)
  happen-IsLinked (open_ended env c now msg profile agent old answered) d w safe =
      settle-IsLinked c msg.id (some msg.session_id)
        (end_open env c now msg profile agent old answered d)
        (end_open-IsLinked env c now msg profile agent old answered d w safe)

  abbrev pub AreSafe : List Happening → Daemon → Type 0
  AreSafe [] d = Unit
  AreSafe (h ∷ hs) d = IsSafeHappening h d × AreSafe hs (happen which h d)

  run-IsLinked :
      (hs : List Happening) (d : Daemon) → IsLinked d → AreSafe hs d → IsLinked (run which hs d)
  unfolding run
  run-IsLinked [] d w safe = w
  run-IsLinked (h ∷ hs) d w safe =
      run-IsLinked hs (happen which h d) (happen-IsLinked h d w safe.0) safe.1

  -- From a daemon with no connections and no sessions, however the messages of all connections,
  -- the events of the agents, the reaper and the connections that come and go are interleaved, no
  -- session is ever held by two connections. An open may suspend at its spawn while any of these
  -- come; the other steps run to their end. Left out are runs in which a connection opens again a
  -- session that it holds and the spawn fails, or in which, when a spawn is over, another connection
  -- has taken the session meanwhile or it is gone from the table.
  pub run-sole_owner :
      (hs : List Happening) (d : Daemon) (c k : ℕ) (id : String)
      → d.connections ≡ []
      → d.table.sessions ≡ []
      → AreSafe hs d
      → owns c id (run which hs d) ≡ true
      → owns k id (run which hs d) ≡ true
      → c ≡ k
  run-sole_owner hs d c k id no_connections no_sessions safe mine yours =
      let e = run which hs d in
      IsLinked-unique e c k id
        (run-IsLinked hs d (IsLinked-empty d no_connections no_sessions) safe)
        (owned_of-owns c id e mine) (owned_of-owns k id e yours)
