-- ===== src/Daemon/Leaks.antt =====
-- What a spawn that fails leaves behind (`_handle_open` of blemees_agent/daemon.py).
use blemees_agent.Prelude.{
  if◌then◌else◌, Bool-cases, Dict, lookup, insert, lookup-insert, ℕ, String, ◌≡◌, refl, sym, ap,
  ◌∙◌, inl, inr, Bool, true, false, Option, none, some, List, [], arith, eq_refl,
}
use mathlib.Core.Path.{subst}
use blemees_agent.Table.Bounds.{IsValid}
use blemees_agent.Errors.{
  Failure, Result, ok, err, session_exists_error, request_error, spawn_failed_error,
}
use blemees_agent.Protocol.Messages.{OpenMessage}
use blemees_agent.Session.{Session, Env, new_session}
use blemees_agent.Supervisor.{Supervisor, resolve, make_handle}
use blemees_agent.Supervisor.Profiles.{Profile, Agent}
use blemees_agent.Table.{SessionTable, register}
use blemees_agent.Table.Reaper.{reap_idle-lookup, lookup-remove}
use blemees_agent.Daemon.{
  Daemon, DaemonEffect, owns, try_get, put_session, is_running, Spawned, take_from,
}
use blemees_agent.Daemon.Open.{
  cwd_of, wired, claim, resume_id, give_up, spawn_failed, spawn_open, handle_open,
}
use blemees_agent.Daemon.Steps.{reap}
use blemees_agent.Daemon.Ownership.{IsLinked, owned_in, owned_of-owns}
use blemees_agent.Daemon.Ownership.Open.{unknown_unheld, handle_open-IsLinked}
use blemees_agent.Daemon.Ownership.Transfer.{linked-found}

-- A session is claimed, and the spawn fails.
open_fails :
    (env : Env) (c now : ℕ) (msg : OpenMessage) (answer : Option String → Result Spawned)
    (d e : Daemon) (es : List DaemonEffect) (s : Session) (profile : Profile) (agent : Agent)
    (supervisor : Supervisor) (why : Failure)
    → resolve msg.profile msg.agent d.supervisor ≡ ok (profile, some agent)
    → claim c now msg (try_get msg.session_id d) d ≡ ok (e, es, s)
    → is_running (wired msg profile s).backend ≡ false
    → make_handle msg.profile msg.agent e.supervisor ≡ ok supervisor
    → answer (resume_id msg (wired msg profile s) e) ≡ err why
    → handle_open env c now msg answer d
      ≡ spawn_failed c msg why
          (record (put_session msg.session_id (wired msg profile s) e) { supervisor = supervisor })
          es
unfolding handle_open spawn_open spawn_failed
open_fails env c now msg answer d e es s profile agent supervisor why resolved claimed idle made
      failed =
    rw (resolved, claimed, handle_open) (rw (idle) (rw (made, failed, spawn_open) refl))

claim_registered :
    (c now : ℕ) (msg : OpenMessage) (d : Daemon) (t : SessionTable)
    → register (new_session msg.session_id (cwd_of msg) d.ring_buffer_size now) d.table ≡ ok t
    → claim c now msg none d
      ≡ ok (
        record d { table = t; open_msgs = insert msg.session_id msg d.open_msgs },
        [],
        new_session msg.session_id (cwd_of msg) d.ring_buffer_size now,
      )
unfolding claim
claim_registered c now msg d t registered = rw registered refl

claim_own :
    (c now : ℕ) (msg : OpenMessage) (s : Session) (d : Daemon)
    → s.connection_id ≡ some c
    → msg.resume ≡ true
    → claim c now msg (some s) d
      ≡ ok (record d { open_msgs = insert msg.session_id msg d.open_msgs }, [], s)
unfolding claim take_from
claim_own c now msg s d named resume =
    let same : take_from s.connection_id c msg.session_id d ≡ (d, []) =
      ap (λ o. take_from o c msg.session_id d) named ∙ ground arith in
    ap {A = Bool}
      (λ b.
        if b
        then ok (
          record (take_from s.connection_id c msg.session_id d).0 {
            open_msgs =
                insert msg.session_id msg
                  (take_from s.connection_id c msg.session_id d).0.open_msgs;
          },
          (take_from s.connection_id c msg.session_id d).1,
          s,
        )
        else err (session_exists_error msg.session_id))
      resume
    ∙ ap {A = Daemon × List DaemonEffect}
        (λ t. ok (record t.0 { open_msgs = insert msg.session_id msg t.0.open_msgs }, t.1, s)) same

unheld_false :
    (c : ℕ) (id : String) (d : Daemon)
    → IsLinked d
    → lookup id d.table.sessions ≡ none
    → owned_in c id d.connections ≡ false
unheld_false c id d w free = elim (Bool-cases (owned_in c id d.connections)) [
  | inl held ↦ absurd (unknown_unheld c id id d w free held (eq_refl id))
  | inr unheld ↦ unheld
]

found_here : (id : String) (s : Session) (d : Dict Session) → lookup id (insert id s d) ≡ some s
found_here id s d =
    lookup-insert id id s d ∙ ap (λ b. if b then some s else lookup id d) (eq_refl id)

-- The reaper needs a time of detaching.
not_reaped :
    (now : ℕ) (id : String) (s : Session) (d : Daemon)
    → IsValid d.table
    → lookup id d.table.sessions ≡ some s
    → s.detached_at ≡ none
    → lookup id (reap now d).0.table.sessions ≡ some s
unfolding reap
not_reaped now id s d w found never = elim (reap_idle-lookup now d.table id s w found).0 [
  | inl (due, _) ↦ absurd (let bad = sym never ∙ due.detached in cc)
  | inr (_, kept) ↦ kept
]

-- A session that was opened anew, by an agent that answered with an error of its own, stays in
-- the table with no owner, and no later round of the reaper takes it out.
pub handle_open-unreaped :
    (env : Env) (c now later : ℕ) (msg : OpenMessage) (answer : Option String → Result Spawned)
    (d : Daemon) (t : SessionTable) (profile : Profile) (agent : Agent) (supervisor : Supervisor)
    (why : String)
    → IsLinked d
    → lookup msg.session_id d.table.sessions ≡ none
    → resolve msg.profile msg.agent d.supervisor ≡ ok (profile, some agent)
    → register (new_session msg.session_id (cwd_of msg) d.ring_buffer_size now) d.table ≡ ok t
    → make_handle msg.profile msg.agent d.supervisor ≡ ok supervisor
    → ((o : Option String) → answer o ≡ err (request_error why))
    → (s : Session) × (lookup msg.session_id
          (reap later (handle_open env c now msg answer d).0).0.table.sessions
        ≡ some s)
      × (s.connection_id ≡ none)
unfolding wired new_session spawn_failed
handle_open-unreaped env c now later msg answer d t profile agent supervisor why w free resolved
      registered made failed =
    let s0 = new_session msg.session_id (cwd_of msg) d.ring_buffer_size now in
    let s = wired msg profile s0 in
    let e = record d { table = t; open_msgs = insert msg.session_id msg d.open_msgs } in
    let left = record (put_session msg.session_id s e) { supervisor = supervisor } in
    let stays : (handle_open env c now msg answer d).0 ≡ left =
      ap (λ h. h.0)
        (open_fails env c now msg answer d e [] s0 profile agent supervisor (request_error why)
          resolved (ap (λ o. claim c now msg o d) free ∙ claim_registered c now msg d t registered)
          refl made (failed _)) in
    let unheld : owned_in c msg.session_id d.connections ≡ false =
      unheld_false c msg.session_id d w free in
    let linked : IsLinked left =
      subst IsLinked stays (handle_open-IsLinked env c now msg answer d w (inl unheld)) in
    let found : lookup msg.session_id left.table.sessions ≡ some s =
      found_here msg.session_id s t.sessions in
    (
      s,
      ap (λ x. lookup msg.session_id (reap later x).0.table.sessions) stays
          ∙ not_reaped later msg.session_id s left linked.valid found refl,
      refl,
    )

-- An owner that opens again a session whose agent does not run, and whose spawn fails, loses the
-- session from the table, but goes on holding its id.
pub handle_open-orphaned :
    (env : Env) (c now : ℕ) (msg : OpenMessage) (answer : Option String → Result Spawned)
    (d : Daemon) (s : Session) (profile : Profile) (agent : Agent) (supervisor : Supervisor)
    (why : String)
    → IsLinked d
    → lookup msg.session_id d.table.sessions ≡ some s
    → owns c msg.session_id d ≡ true
    → msg.resume ≡ true
    → is_running s.backend ≡ false
    → resolve msg.profile msg.agent d.supervisor ≡ ok (profile, some agent)
    → make_handle msg.profile msg.agent d.supervisor ≡ ok supervisor
    → ((o : Option String) → answer o ≡ err (spawn_failed_error why))
    → (lookup msg.session_id (handle_open env c now msg answer d).0.table.sessions ≡ none)
      × (owns c msg.session_id (handle_open env c now msg answer d).0 ≡ true)
unfolding wired spawn_failed give_up owns
handle_open-orphaned env c now msg answer d s profile agent supervisor why w found mine resume idle
      resolved made failed =
    let id = msg.session_id in
    let named : s.connection_id ≡ some c =
      linked-found d id id c s w found (owned_of-owns c id d mine) (eq_refl id) in
    let e = record d { open_msgs = insert id msg d.open_msgs } in
    let v = wired msg profile s in
    let gone =
      give_up c msg (spawn_failed_error why)
        (record (put_session id v e) { supervisor = supervisor }) [] in
    let stays : handle_open env c now msg answer d ≡ gone =
      open_fails env c now msg answer d e [] s profile agent supervisor (spawn_failed_error why)
        resolved (ap (λ o. claim c now msg o d) found ∙ claim_own c now msg s d named resume) idle
        made (failed _) in
    (
      ap (λ h. lookup id h.0.table.sessions) stays
          ∙ lookup-remove id id false (put_session id v e).table
          ∙ ap (λ b. if b then none else lookup id (put_session id v e).table.sessions)
              (eq_refl id),
      ap (λ h. owns c id h.0) stays ∙ mine,
    )
