-- ===== src/Daemon/Ownership/Spawn.antt =====
-- The ownership of sessions where the spawn of an open suspends (blemees_agent/daemon.py,
-- `_handle_open`).
use blemees_agent.Prelude.{
  nat_eq, if◌then◌else◌, nat_eq_iff, Option-cases, lookup, lookup-insert, ℕ, String, ◌≡◌, refl, sym,
  ap, ◌∙◌, ◌⊎◌, inl, inr, Bool, true, false, ◌||◌, Option, none, some, List, [], ◌==◌, eq_refl,
}
use blemees_agent.Errors.{
  Failure, auth_required_error, spawn_failed_error, Result, ok, Result-cases,
}
use blemees_agent.Protocol.Messages.{OpenMessage}
use blemees_agent.Session.{Session, Env}
use blemees_agent.Supervisor.{Supervisor, resolve, make_handle}
use blemees_agent.Supervisor.Profiles.{Profile, Agent}
use blemees_agent.Daemon.{
  Daemon, Connection, try_get, put_session, own, owns, at_connection, lookup_connection, Spawned,
}
use blemees_agent.Daemon.{DaemonEffect, is_running}
use blemees_agent.Daemon.Open.{
  resume_id, spawn_failed, give_up, spawn_open, handle_open, claim, wired, adopt, serve_open,
  begin_open, end_open,
}
use blemees_agent.Daemon.Ownership.{
  owned_in, IsLinked, holds_at, map_option, find-at_connection, holds-add_text,
}
use blemees_agent.Daemon.Ownership.Sessions.{IsSame-refl}
use blemees_agent.Daemon.Ownership.Frame.{Keeps-refl}
use blemees_agent.Daemon.Ownership.Transfer.{IsLinked-unique}
use blemees_agent.Daemon.Ownership.Open.{
  IsClaimed, claim-AreClaimed, put-IsClaimed, serve_open-IsLinked, IsClaimed-change,
  spawn_failed-IsLinked, adopt-IsSame, wired-IsSame,
}
use blemees_agent.Daemon.Ownership.Takeover.{owned_in-own_here}

spawn_failed_state :
    (c : ℕ) (msg : OpenMessage) (e : Failure) (d : Daemon) (es : List DaemonEffect)
    → (spawn_failed c msg e d es).0 ≡ (spawn_failed c msg e d []).0
unfolding spawn_failed give_up
spawn_failed_state c msg (auth_required_error why) d es = refl
spawn_failed_state c msg (spawn_failed_error why) d es = refl
spawn_failed_state c msg _ d es = refl

-- Where nothing comes between the two parts of an open, they leave the daemon as `handle_open` does.
-- `s` is the session that was claimed, in the state `e`.
pub handle_open-begin_open :
    (env : Env) (c now : ℕ) (msg : OpenMessage) (answer : Option String → Result Spawned)
    (profile : Profile) (agent : Agent) (s old : Session) (supervisor : Supervisor)
    (es : List DaemonEffect) (d e : Daemon)
    → resolve msg.profile msg.agent d.supervisor ≡ ok (profile, some agent)
    → claim c now msg (try_get msg.session_id d) d ≡ ok (e, es, s)
    → is_running s.backend ≡ false
    → make_handle msg.profile msg.agent e.supervisor ≡ ok supervisor
    → (handle_open env c now msg answer d).0
      ≡ (end_open env c now msg profile agent old
          (answer (resume_id msg (wired msg profile s) e))
          (begin_open c now msg d).0).0
unfolding handle_open begin_open spawn_open end_open
handle_open-begin_open env c now msg answer profile agent s old supervisor es d e resolved claimed
      stopped made =
    let id = msg.session_id in
    let w = wired msg profile s in
    let ready = record (put_session id w e) { supervisor = supervisor } in
    let there : lookup id ready.table.sessions ≡ some w =
      lookup-insert id id w e.table.sessions
      ∙ ap (λ b. if b then some w else lookup id e.table.sessions) (eq_refl id) in
    let still : is_running w.backend ≡ false = unfold wired in stopped in
    rw (resolved, claimed, made, handle_open, begin_open)
      (rw (still, made, spawn_open)
        (elim (Result-cases (answer (resume_id msg w e))) [
          | inl (failure, failed) ↦
              rw (failed, end_open) (spawn_failed_state c msg failure ready es)
          | inr (info, spawned) ↦
              rw (spawned, end_open) (unfold end_open serve_open in rw there refl)
        ]))

pub begin_open-IsLinked :
    (c now : ℕ) (msg : OpenMessage) (d : Daemon) → IsLinked d → IsLinked (begin_open c now msg d).0
unfolding begin_open
begin_open-IsLinked c now msg d w =
    elim (Result-cases (resolve msg.profile msg.agent d.supervisor)) [
      | inl (e, raised) ↦ rw (raised, begin_open) w
      | inr (found, resolved) ↦ elim (Option-cases found.1) [
        | inl nothing ↦ rw (resolved, nothing, begin_open) w
        | inr (agent, there) ↦ elim (Result-cases (claim c now msg (try_get msg.session_id d) d)) [
          | inl (e, raised) ↦ rw (resolved, there, raised, begin_open) w
          | inr (r, done) ↦
              let id = msg.session_id in
              let claimed = (claim-AreClaimed c now msg (try_get id d) d r w refl done).0 in
              let s = wired msg found.0 r.2 in
              let put = put_session id s r.0 in
              let same = wired-IsSame msg found.0 r.2 in
              elim (Result-cases (make_handle msg.profile msg.agent r.0.supervisor)) [
                | inl (e, raised) ↦
                    rw (resolved, there, done, raised, begin_open)
                      ((put-IsClaimed c id r.2 s r.0 put claimed same refl refl).linked)
                | inr (supervisor, made) ↦
                    let ready = record put { supervisor = supervisor } in
                    rw (resolved, there, done, made, begin_open)
                      ((put-IsClaimed c id r.2 s r.0 ready claimed same refl refl).linked)
              ]
        ]
      ]
    ]

-- When the spawn is over, the session is still in the table and no other connection has taken it;
-- and if the spawn failed, the connection does not hold it already.
abbrev pub IsUndisturbed : ℕ → String → Result Spawned → Daemon → Type 0
IsUndisturbed c id answered d =
    (s : Session) × (lookup id d.table.sessions ≡ some s)
    × ((k : ℕ) → owned_in k id d.connections ≡ true → c ≡ k)
    × ((owned_in c id d.connections ≡ false) ⊎ ((info : Spawned) × (answered ≡ ok info)))

pub end_open-IsLinked :
    (env : Env) (c now : ℕ) (msg : OpenMessage) (profile : Profile) (agent : Agent) (old : Session)
    (answered : Result Spawned) (d : Daemon)
    → IsLinked d
    → IsUndisturbed c msg.session_id answered d
    → IsLinked (end_open env c now msg profile agent old answered d).0
unfolding end_open
end_open-IsLinked env c now msg profile agent old answered d w (s, found, alone, safe) =
    let id = msg.session_id in
    let claimed : IsClaimed c id s d = record {
      linked = w;
      found = (s, found, IsSame-refl s);
      alone = alone;
    } in
    elim (Result-cases answered) [
      | inl (e, failed) ↦
          rw (failed, end_open)
            (elim safe [
              | inl free ↦ spawn_failed-IsLinked c msg e s d [] claimed free
              | inr (info, there) ↦ absurd (let bad = sym there ∙ failed in cc)
            ])
      | inr (info, there) ↦
          rw (there, found, end_open)
            (serve_open-IsLinked env c now msg profile agent (adopt info s) d [] (
              IsClaimed-change c id s (adopt info s) d d (Keeps-refl d) claimed refl
                (adopt-IsSame info s)))
    ]

held-own :
    (id : String) (b : Bool) (o : Option Connection)
    → holds_at id o ≡ true
    → holds_at id (if b then map_option (own id) o else o) ≡ true
held-own id b none held = cc
held-own id false (some k) held = held
held-own id true (some k) held = holds-add_text id id k.owned ∙ ap (λ h. h || (id == id)) held

-- If another connection holds the session when the spawn of an open is over, the connection that
-- opens it takes it all the same: both hold the session from then on, and it is no longer so that a
-- session names each connection that holds it.
pub end_open-shared :
    (env : Env) (c k now : ℕ) (msg : OpenMessage) (profile : Profile) (agent : Agent)
    (old s : Session) (info : Spawned) (d : Daemon) (x : Connection)
    → nat_eq c k ≡ false
    → lookup_connection c d.connections ≡ some x
    → lookup msg.session_id d.table.sessions ≡ some s
    → owns k msg.session_id d ≡ true
    → (owns c msg.session_id (end_open env c now msg profile agent old (ok info) d).0 ≡ true)
      × (owns k msg.session_id (end_open env c now msg profile agent old (ok info) d).0 ≡ true)
      × (¬ IsLinked (end_open env c now msg profile agent old (ok info) d).0)
unfolding end_open serve_open owns
end_open-shared env c k now msg profile agent old s info d x apart here found held =
    let id = msg.session_id in
    let ks = at_connection c (own id) d.connections in
    let mine : owned_in c id ks ≡ true = owned_in-own_here c id x d.connections here in
    let yours : owned_in k id ks ≡ true =
      ap (holds_at id) (find-at_connection c k (own id) d.connections (λ y. refl))
      ∙ held-own id (nat_eq c k) (lookup_connection k d.connections) held in
    rw (found, end_open)
      (
        mine,
        yours,
        λ w.
            let same = IsLinked-unique _ c k id w mine yours in
            let bad = sym ((nat_eq_iff c k).1 same) ∙ apart in cc,
      )
