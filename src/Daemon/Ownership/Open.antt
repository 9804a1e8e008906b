-- ===== src/Daemon/Ownership/Open.antt =====
-- The ownership of sessions where a connection opens one (blemees_agent/daemon.py).
use blemees_agent.Prelude.{
  if◌then◌else◌, Bool-cases, Option-cases, from_option, lookup, insert, lookup-insert, ℕ, String,
  ◌≡◌, refl, sym, ap, ◌∙◌, ◌⊎◌, inl, inr, Bool, true, false, Option, none, some, List, [], ◌==◌,
  eq_iff, eq_refl,
}
use mathlib.Core.Path.{subst}
use blemees_agent.Errors.{
  Failure, Result, ok, err, Result-cases, ok_injective, session_exists_error, auth_required_error,
  spawn_failed_error,
}
use blemees_agent.Protocol.Messages.{OpenMessage}
use blemees_agent.Session.{Session, Env, new_session}
use blemees_agent.Session.Attach.{attach, take_over}
use blemees_agent.Supervisor.{resolve, make_handle}
use blemees_agent.Supervisor.Profiles.{Profile, Agent}
use blemees_agent.Table.{register}
use blemees_agent.Table.Bounds.{IsValid, update-IsValid, remove-IsValid, register-IsValid}
use blemees_agent.Table.Reaper.{lookup-remove}
use blemees_agent.Daemon.{
  Daemon, DaemonEffect, Connection, try_get, put_session, change, own, take_from, is_running,
  Spawned,
}
use blemees_agent.Daemon.Open.{
  cwd_of, wired, claim, adopt, give_up, spawn_failed, serve_open, resume_id, spawn_open,
  handle_open,
}
use blemees_agent.Daemon.Ownership.{owner_of, owner_in, owned_in, IsLinked, owned_in-own}
use blemees_agent.Daemon.Ownership.Sessions.{IsSame, IsSame-refl, IsSame-trans, attach-IsSame}
use blemees_agent.Daemon.Ownership.Frame.{
  Keeps, Keeps-refl, Keeps-same, Keeps-trans, Keeps-put, Keeps-IsLinked, lookup-Keyed,
}
use blemees_agent.Daemon.Ownership.Transfer.{IsLinked-take, table-take_from, take_from-alone}
use blemees_agent.Daemon.Ownership.Attach.{owner_of-insert_here, owner_of-insert_other}

-- The session `s` is there for connection `c`: nobody else holds it.
pub record IsClaimed (c : ℕ) (id : String) (s : Session) (d : Daemon) : Type 0 where
  pub linked : IsLinked d
  pub found : (t : Session) × (lookup id d.table.sessions ≡ some t) × IsSame t s
  pub alone : (k : ℕ) → owned_in k id d.connections ≡ true → c ≡ k

-- `owned_in` under an id that equals `id`.
at_id :
    (c k : ℕ) (id j : String) (ks : List Connection)
    → ((n : ℕ) → owned_in n id ks ≡ true → c ≡ n)
    → owned_in k j ks ≡ true
    → (id == j) ≡ true
    → c ≡ k
at_id c k id j ks alone held same =
    alone k (ap (λ x. owned_in k x ks) ((eq_iff id j).0 same) ∙ held)

-- The connection takes the session that it has claimed.
take-IsLinked :
    (c : ℕ) (id : String) (s t : Session) (d e : Daemon)
    → IsClaimed c id s d
    → IsSame (take_over c s) t
    → e.table ≡ (put_session id t d).table
    → e.connections ≡ (change c (own id) d).connections
    → IsLinked e
take-IsLinked c id s t d e claimed same table connections =
    let (v, found, kept) = claimed.found in
    let w = claimed.linked in
    IsLinked-take c id d e w
      (subst IsValid (sym table) (
        update-IsValid d.table id t v w.valid found (
          same.session_id
          ∙ kept.session_id
          ∙ lookup-Keyed id v d.table.sessions w.valid.keyed found)))
      (ap (λ x. owner_of id x.sessions) table
        ∙ owner_of-insert_here id t d.table.sessions
        ∙ same.connection_id)
      (λ j other.
        ap (λ x. owner_of j x.sessions) table ∙ owner_of-insert_other id j t d.table.sessions other)
      (λ k j h.
        elim (owned_in-own c k id j d.connections (sym (ap (owned_in k j) connections) ∙ h)) [
          | inl held ↦ inr (held, at_id c k id j d.connections claimed.alone held)
          | inr new ↦ inl new
        ])

pub serve_open-IsLinked :
    (env : Env) (c now : ℕ) (msg : OpenMessage) (profile : Profile) (agent : Agent) (s : Session)
    (d : Daemon) (es : List DaemonEffect)
    → IsClaimed c msg.session_id s d
    → IsLinked (serve_open env c now msg profile agent s d es).0
unfolding serve_open
serve_open-IsLinked env c now msg profile agent s d es claimed =
    let seen = some (from_option 0 msg.last_seen_seq) in
    take-IsLinked c msg.session_id s (attach env c seen s).0 d _ claimed
      (attach-IsSame env c seen s) refl refl

pub IsClaimed-change :
    (c : ℕ) (id : String) (s t : Session) (d e : Daemon)
    → Keeps d e
    → IsClaimed c id s d
    → lookup id e.table.sessions ≡ lookup id d.table.sessions
    → IsSame s t
    → IsClaimed c id t e
IsClaimed-change c id s t d e keeps claimed same_entry same =
    let (v, found, kept) = claimed.found in
    record {
      linked = Keeps-IsLinked keeps claimed.linked;
      found = (v, same_entry ∙ found, IsSame-trans kept same);
      alone = λ k h. claimed.alone k (keeps.holders k id h);
    }

-- Taking the session from its owner leaves it named by that owner, who no longer holds it.
take_from-IsClaimed :
    (c : ℕ) (id : String) (s : Session) (d e : Daemon)
    → IsLinked d
    → lookup id d.table.sessions ≡ some s
    → e.table ≡ d.table
    → ((k : ℕ) (j : String)
        → owned_in k j e.connections ≡ true
        → (owned_in k j d.connections ≡ true) × ((id == j) ≡ true → c ≡ k))
    → IsClaimed c id s e
take_from-IsClaimed c id s d e w found table alone = record {
  linked = record {
    valid = subst IsValid (sym table) w.valid;
    linked = λ k j h. ap (λ x. owner_of j x.sessions) table ∙ w.linked k j (alone k j h).0;
  };
  found = (s, ap (λ x. lookup id x.sessions) table ∙ found, IsSame-refl s);
  alone = λ k h. (alone k id h).1 (eq_refl id);
}

-- A session that is not in the table is nobody's.
pub unknown_unheld :
    (k : ℕ) (id j : String) (d : Daemon)
    → IsLinked d
    → lookup id d.table.sessions ≡ none
    → owned_in k j d.connections ≡ true
    → (id == j) ≡ true
    → ⊥
unknown_unheld k id j d w free held same =
    let taken : none ≡ some k =
      sym (ap owner_in free)
      ∙ ap (λ x. owner_of x d.table.sessions) ((eq_iff id j).0 same)
      ∙ w.linked k j held in
    cc

register-IsClaimed :
    (c : ℕ) (s : Session) (d e : Daemon)
    → IsLinked d
    → register s d.table ≡ ok e.table
    → e.connections ≡ d.connections
    → IsClaimed c s.session_id s e
register-IsClaimed c s d e w registered connections =
    let (valid, free, entries) = register-IsValid s d.table e.table w.valid registered in
    let unheld : (k : ℕ) (j : String)
        → owned_in k j e.connections ≡ true
        → (s.session_id == j) ≡ true
        → ⊥ =
      λ k j h same.
        unknown_unheld k s.session_id j d w free (sym (ap (owned_in k j) connections) ∙ h) same in
    record {
      linked = record {
        valid = valid;
        linked = λ k j h. elim (Bool-cases (s.session_id == j)) [
          | inl same ↦ absurd (unheld k j h same)
          | inr other ↦
              ap owner_in
                (entries j ∙ ap (λ b. if b then some s else lookup j d.table.sessions) other)
              ∙ w.linked k j (sym (ap (owned_in k j) connections) ∙ h)
        ];
      };
      found = (
        s,
        entries s.session_id
            ∙ ap (λ b. if b then some s else lookup s.session_id d.table.sessions)
                (eq_refl s.session_id),
        IsSame-refl s,
      );
      alone = λ k h. absurd (unheld k s.session_id h (eq_refl s.session_id));
    }

-- What `claim` leaves where it does not raise: the session, and holders as before.
abbrev pub AreClaimed : ℕ → String → Daemon → Daemon × List DaemonEffect × Session → Type 0
AreClaimed c id d r =
    IsClaimed c id r.2 r.0
    × ((k : ℕ) (j : String)
        → owned_in k j r.0.connections ≡ true
        → owned_in k j d.connections ≡ true)

claim_new :
    (c now : ℕ) (msg : OpenMessage) (d : Daemon) (r : Daemon × List DaemonEffect × Session)
    → IsLinked d
    → claim c now msg none d ≡ ok r
    → AreClaimed c msg.session_id d r
unfolding claim new_session
claim_new c now msg d r w done =
    let s = new_session msg.session_id (cwd_of msg) d.ring_buffer_size now in
    let opened = insert msg.session_id msg d.open_msgs in
    elim (Result-cases (register s d.table)) [
      | inl (e, raised) ↦ let bad = rw (raised, claim) at done in cc
      | inr (t, registered) ↦
          let e = record d { table = t; open_msgs = opened } in
          subst (AreClaimed c msg.session_id d)
            (ok_injective (e, [], s) r (rw (registered, claim) at done))
            (register-IsClaimed c s d e w registered refl, λ k j h. h)
    ]

pub claim_known :
    (c now : ℕ) (msg : OpenMessage) (s : Session) (d : Daemon)
    (r : Daemon × List DaemonEffect × Session)
    → IsLinked d
    → lookup msg.session_id d.table.sessions ≡ some s
    → claim c now msg (some s) d ≡ ok r
    → AreClaimed c msg.session_id d r
unfolding claim
claim_known c now msg s d r w found done = elim (Bool-cases msg.resume) [
  | inr fresh ↦ let bad = rw (fresh, claim) at done in cc
  | inl resume ↦
      let id = msg.session_id in
      let t = (take_from s.connection_id c id d).0 in
      let e = record t { open_msgs = insert id msg t.open_msgs } in
      let alone : (k : ℕ) (j : String)
          → owned_in k j e.connections ≡ true
          → (owned_in k j d.connections ≡ true) × ((id == j) ≡ true → c ≡ k) =
        λ k j h. take_from-alone s.connection_id c k id j s d w found refl h in
      subst (AreClaimed c id d)
        (ok_injective (e, (take_from s.connection_id c id d).1, s) r
          (sym (
              ap {A = Bool}
                (λ b.
                  if b
                  then ok (e, (take_from s.connection_id c id d).1, s)
                  else err (session_exists_error id))
                resume)
            ∙ done))
        (
          take_from-IsClaimed c id s d e w found (table-take_from s.connection_id c id d) alone,
          λ k j h. (alone k j h).0,
        )
]

pub claim-AreClaimed :
    (c now : ℕ) (msg : OpenMessage) (o : Option Session) (d : Daemon)
    (r : Daemon × List DaemonEffect × Session)
    → IsLinked d
    → lookup msg.session_id d.table.sessions ≡ o
    → claim c now msg o d ≡ ok r
    → AreClaimed c msg.session_id d r
claim-AreClaimed c now msg none d r w found done = claim_new c now msg d r w done
claim-AreClaimed c now msg (some s) d r w found done = claim_known c now msg s d r w found done

-- The session is put back changed, and the supervisor may have changed too.
pub put-IsClaimed :
    (c : ℕ) (id : String) (s t : Session) (d e : Daemon)
    → IsClaimed c id s d
    → IsSame s t
    → e.table ≡ (put_session id t d).table
    → e.connections ≡ d.connections
    → IsClaimed c id t e
put-IsClaimed c id s t d e claimed same table connections =
    let (v, found, kept) = claimed.found in
    let keeps =
      Keeps-trans (Keeps-put id v t d found (IsSame-trans kept same))
        (Keeps-same (put_session id t d) e table connections) in
    record {
      linked = Keeps-IsLinked keeps claimed.linked;
      found = (
        t,
        ap (λ x. lookup id x.sessions) table
            ∙ lookup-insert id id t d.table.sessions
            ∙ ap (λ b. if b then some t else lookup id d.table.sessions) (eq_refl id),
        IsSame-refl t,
      );
      alone = λ k h. claimed.alone k (keeps.holders k id h);
    }

-- Where nobody holds the session it can be taken out again.
give_up-IsLinked :
    (c : ℕ) (msg : OpenMessage) (e : Failure) (s : Session) (d : Daemon) (es : List DaemonEffect)
    → IsClaimed c msg.session_id s d
    → owned_in c msg.session_id d.connections ≡ false
    → IsLinked (give_up c msg e d es).0
unfolding give_up
give_up-IsLinked c msg e s d es claimed free =
    let id = msg.session_id in
    record {
      valid = remove-IsValid id false d.table claimed.linked.valid;
      linked = λ k j h. elim (Bool-cases (id == j)) [
        | inl same ↦
            let mine : c ≡ k = at_id c k id j d.connections claimed.alone h same in
            absurd (
              let bad : owned_in c id d.connections ≡ true =
                ap (λ x. owned_in c x d.connections) ((eq_iff id j).0 same)
                ∙ ap (λ x. owned_in x j d.connections) mine
                ∙ h in
              let clash = sym bad ∙ free in cc)
        | inr other ↦
            ap owner_in (
              lookup-remove id j false d.table
              ∙ ap (λ b. if b then none else lookup j d.table.sessions) other)
            ∙ claimed.linked.linked k j h
      ];
    }

pub spawn_failed-IsLinked :
    (c : ℕ) (msg : OpenMessage) (e : Failure) (s : Session) (d : Daemon) (es : List DaemonEffect)
    → IsClaimed c msg.session_id s d
    → owned_in c msg.session_id d.connections ≡ false
    → IsLinked (spawn_failed c msg e d es).0
unfolding spawn_failed
spawn_failed-IsLinked c msg (auth_required_error why) s d es claimed free =
    give_up-IsLinked c msg (auth_required_error why) s d es claimed free
spawn_failed-IsLinked c msg (spawn_failed_error why) s d es claimed free =
    give_up-IsLinked c msg (spawn_failed_error why) s d es claimed free
spawn_failed-IsLinked c msg _ s d es claimed free = claimed.linked

pub wired-IsSame :
    (msg : OpenMessage) (profile : Profile) (s : Session) → IsSame s (wired msg profile s)
unfolding wired
wired-IsSame msg profile s = record { session_id = refl; connection_id = refl }

pub adopt-IsSame : (info : Spawned) (s : Session) → IsSame s (adopt info s)
unfolding adopt
adopt-IsSame info s = record { session_id = refl; connection_id = refl }

-- Either nobody holds the session before, or every spawn comes to something.
abbrev pub IsSafeSpawn : ℕ → String → (Option String → Result Spawned) → Daemon → Type 0
IsSafeSpawn c id answer d =
    (owned_in c id d.connections ≡ false)
    ⊎ ((o : Option String) → (info : Spawned) × (answer o ≡ ok info))

spawn_open-IsLinked :
    (going : Bool) (env : Env) (c now : ℕ) (msg : OpenMessage)
    (answer : Option String → Result Spawned) (profile : Profile) (agent : Agent) (v s : Session)
    (d : Daemon) (es : List DaemonEffect)
    → IsClaimed c msg.session_id v d
    → IsSame v s
    → IsSafeSpawn c msg.session_id answer d
    → IsLinked (spawn_open going env c now msg answer profile agent s d es).0
unfolding spawn_open
spawn_open-IsLinked true env c now msg answer profile agent v s d es claimed same safe =
    serve_open-IsLinked env c now msg profile agent s _ es
      (put-IsClaimed c msg.session_id v s d (put_session msg.session_id s d) claimed same refl refl)
spawn_open-IsLinked false env c now msg answer profile agent v s d es claimed same safe =
    let id = msg.session_id in
    let put = put_session id s d in
    elim (Result-cases (make_handle msg.profile msg.agent d.supervisor)) [
      | inl (e, raised) ↦
          rw (raised, spawn_open) ((put-IsClaimed c id v s d put claimed same refl refl).linked)
      | inr (supervisor, made) ↦
          let d1 = record put { supervisor = supervisor } in
          let ready = put-IsClaimed c id v s d d1 claimed same refl refl in
          elim (Result-cases (answer (resume_id msg s d))) [
            | inr (info, there) ↦
                rw (made, there, spawn_open)
                  (serve_open-IsLinked env c now msg profile agent (adopt info s) d1 es (
                    IsClaimed-change c id s (adopt info s) d1 d1 (Keeps-refl d1) ready refl
                      (adopt-IsSame info s)))
            | inl (e, failed) ↦
                rw (made, failed, spawn_open)
                  (elim safe [
                    | inl free ↦ spawn_failed-IsLinked c msg e s d1 es ready free
                    | inr always ↦ absurd (
                        let (info, there) = always (resume_id msg s d) in
                        let bad = sym there ∙ failed in cc)
                  ])
          ]
    ]

IsSafeSpawn-shrink :
    (c : ℕ) (id : String) (answer : Option String → Result Spawned) (d e : Daemon)
    → (owned_in c id e.connections ≡ true → owned_in c id d.connections ≡ true)
    → IsSafeSpawn c id answer d
    → IsSafeSpawn c id answer e
IsSafeSpawn-shrink c id answer d e shrink (inr always) = inr always
IsSafeSpawn-shrink c id answer d e shrink (inl free) =
    inl (elim (Bool-cases (owned_in c id e.connections)) [
      | inl held ↦ absurd (let bad = sym (shrink held) ∙ free in cc)
      | inr gone ↦ gone
    ])

-- A session keeps naming the connection that holds it when a connection opens a session, where
-- the connection does not hold it already or the spawn does not fail.
pub handle_open-IsLinked :
    (env : Env) (c now : ℕ) (msg : OpenMessage) (answer : Option String → Result Spawned)
    (d : Daemon)
    → IsLinked d
    → IsSafeSpawn c msg.session_id answer d
    → IsLinked (handle_open env c now msg answer d).0
unfolding handle_open
handle_open-IsLinked env c now msg answer d w safe =
    elim (Result-cases (resolve msg.profile msg.agent d.supervisor)) [
      | inl (e, raised) ↦ rw (raised, handle_open) w
      | inr (found, resolved) ↦ elim (Option-cases found.1) [
        | inl nothing ↦ rw (resolved, nothing, handle_open) w
        | inr (agent, there) ↦ elim (Result-cases (claim c now msg (try_get msg.session_id d) d)) [
          | inl (e, raised) ↦ rw (resolved, there, raised, handle_open) w
          | inr (r, done) ↦
              let (claimed, shrink) =
                claim-AreClaimed c now msg (try_get msg.session_id d) d r w refl done in
              let s = wired msg found.0 r.2 in
              rw (resolved, there, done, handle_open)
                (spawn_open-IsLinked (is_running s.backend) env c now msg answer found.0 agent r.2 s
                  r.0 r.1 claimed (wired-IsSame msg found.0 r.2)
                  (IsSafeSpawn-shrink c msg.session_id answer d r.0 (shrink c msg.session_id) safe))
        ]
      ]
    ]
