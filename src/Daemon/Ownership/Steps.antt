-- ===== src/Daemon/Ownership/Steps.antt =====
-- The ownership of sessions where connections come and go, agents speak and the reaper runs
-- (blemees_agent/daemon.py).
use blemees_agent.Prelude.{
  Bool-cases, Dict, Option, Option-cases, String, [], ap, arith, false, if◌then◌else◌, inl, inr,
  is_some, length, lookup, nat_eq, none, refl, some, suc, sym, ℕ, ◌==◌, ◌∙◌, ◌∷◌, ◌≡◌,
}
use blemees_agent.EventLog.{Frame}
use blemees_agent.Session.{Backend, Session, Env}
use blemees_agent.Table.{
  SessionTable, detach_soft, detach_session, detach_each, detach_all_for_connection, owned_by,
  unwatch_each, remove_all_watchers_for_connection,
}
use blemees_agent.Table.Bounds.{IsValid, Distinct, Keyed, update-IsValid}
use blemees_agent.Table.Detach.{lookup-detach_all, session_id-detach_session}
use blemees_agent.Table.Reaper.{reap_idle-IsValid, reap_idle-lookup}
use blemees_agent.Daemon.{Daemon, try_get}
use blemees_agent.Daemon.Steps.{backend_turns, accept, hang_up, agent_event, reap}
use blemees_agent.Daemon.Ownership.{owner_of, owner_in, IsLinked, owned_in-accept, owned_in-drop}
use blemees_agent.Daemon.Ownership.Sessions.{on_event-IsSame, remove_watcher-IsSame}
use blemees_agent.Daemon.Ownership.Frame.{
  Keeps-same, Keeps-trans, Keeps, Keeps-refl, Keeps-put, lookup-Keyed,
}

pub accept-IsLinked : (c : ℕ) (d : Daemon) → IsLinked d → IsLinked (accept c d)
unfolding accept
accept-IsLinked c d w = record {
  valid = w.valid;
  linked = λ k j h. w.linked k j (owned_in-accept c k j d.connections h);
}

pub agent_event-Keeps :
    (env : Env) (id : String) (f : Frame) (d : Daemon) → Keeps d (agent_event env id f d).0
unfolding agent_event
agent_event-Keeps env id f d = elim (Option-cases (try_get id d)) [
  | inl gone ↦ rw (gone, agent_event) (Keeps-refl d)
  | inr (s, found) ↦
      rw (found, agent_event)
        (Keeps-trans (Keeps-put id s _ d found (on_event-IsSame env f s))
          (Keeps-same _ _ refl refl))
]

pub backend_turns-Keeps :
    (id : String) (b : Option Backend) (d : Daemon) → Keeps d (backend_turns id b d)
unfolding backend_turns
backend_turns-Keeps id b d = elim (Option-cases (try_get id d)) [
  | inl gone ↦ rw (gone, backend_turns) (Keeps-refl d)
  | inr (s, found) ↦ elim (Bool-cases (is_some s.backend)) [
    | inl there ↦
        rw (found, there, backend_turns)
          (Keeps-put id s (record s { backend = b }) d found
            (record { session_id = refl; connection_id = refl }))
    | inr bare ↦ rw (found, bare, backend_turns) (Keeps-refl d)
  ]
]

-- Who is found under an id that has an owner.
owned_found :
    (id : String) (c : ℕ) (o : Option Session)
    → owner_in o ≡ some c
    → (s : Session) × (o ≡ some s) × (s.connection_id ≡ some c)
owned_found id c none h = cc
owned_found id c (some s) h = (s, refl, h)

-- The reaper leaves a session that has an owner.
pub reap-IsLinked : (now : ℕ) (d : Daemon) → IsLinked d → IsLinked (reap now d).0
unfolding reap
reap-IsLinked now d w = record {
  valid = reap_idle-IsValid now d.table w.valid;
  linked = λ k j h.
      let (s, found, named) = owned_found j k (lookup j d.table.sessions) (w.linked k j h) in
      elim (reap_idle-lookup now d.table j s w.valid found).0 [
        | inl (due, _) ↦ absurd (let bad = sym due.unowned ∙ named in cc)
        | inr (_, kept) ↦ ap owner_in kept ∙ named
      ];
}

detach_soft-IsValid :
    (now : ℕ) (id : String) (t : SessionTable) → IsValid t → IsValid (detach_soft now id t).0
unfolding detach_soft
detach_soft-IsValid now id t w = elim (Option-cases (lookup id t.sessions)) [
  | inl gone ↦ rw (gone, detach_soft) w
  | inr (s, found) ↦
      rw (found, detach_soft)
        (update-IsValid t id (detach_session now s).0 s w found
          (session_id-detach_session now s ∙ lookup-Keyed id s t.sessions w.keyed found))
]

detach_each-IsValid :
    (now c : ℕ) (d : Dict Session) (t : SessionTable)
    → IsValid t
    → IsValid (detach_each now c d t).0
unfolding detach_each
detach_each-IsValid now c [] t w = w
detach_each-IsValid now c ((id, s) ∷ d) t w = elim (Bool-cases (owned_by c s)) [
  | inl mine ↦ rw mine (detach_each-IsValid now c d _ (detach_soft-IsValid now s.session_id t w))
  | inr foreign ↦ rw foreign (detach_each-IsValid now c d t w)
]

owner_of-unwatch_each :
    (c : ℕ) (j : String) (d : Dict Session) → owner_of j (unwatch_each c d).0 ≡ owner_of j d
unfolding lookup
owner_of-unwatch_each c j [] = refl
owner_of-unwatch_each c j ((i, s) ∷ d) = elim (Bool-cases (i == j)) [
  | inl same ↦ rw same ((remove_watcher-IsSame c s).connection_id)
  | inr other ↦ rw other (owner_of-unwatch_each c j d)
]

absent-unwatch_each :
    (c : ℕ) (j : String) (d : Dict Session)
    → lookup j d ≡ none
    → lookup j (unwatch_each c d).0 ≡ none
unfolding lookup
absent-unwatch_each c j [] h = refl
absent-unwatch_each c j ((i, s) ∷ d) h = elim (Bool-cases (i == j)) [
  | inl same ↦ let bad : some s ≡ none = rw same at h in cc
  | inr other ↦ rw other (absent-unwatch_each c j d (rw other at h))
]

Distinct-unwatch_each : (c : ℕ) (d : Dict Session) → Distinct d → Distinct (unwatch_each c d).0
Distinct-unwatch_each c [] h = tt
Distinct-unwatch_each c ((i, s) ∷ d) h =
    (absent-unwatch_each c i d h.0, Distinct-unwatch_each c d h.1)

Keyed-unwatch_each : (c : ℕ) (d : Dict Session) → Keyed d → Keyed (unwatch_each c d).0
Keyed-unwatch_each c [] h = tt
Keyed-unwatch_each c ((i, s) ∷ d) h =
    ((remove_watcher-IsSame c s).session_id ∙ h.0, Keyed-unwatch_each c d h.1)

length-unwatch_each : (c : ℕ) (d : Dict Session) → length (unwatch_each c d).0 ≡ length d
length-unwatch_each c [] = refl
length-unwatch_each c ((i, s) ∷ d) = ap suc (length-unwatch_each c d)

unwatch_all-IsValid :
    (c : ℕ) (t : SessionTable) → IsValid t → IsValid (remove_all_watchers_for_connection c t).0
unfolding remove_all_watchers_for_connection
unwatch_all-IsValid c t w = record {
  distinct = Distinct-unwatch_each c t.sessions w.distinct;
  keyed = Keyed-unwatch_each c t.sessions w.keyed;
  bounded = omega (arith, length-unwatch_each c t.sessions, w.bounded);
}

owner_of-unwatch_all :
    (c : ℕ) (j : String) (t : SessionTable)
    → owner_of j (remove_all_watchers_for_connection c t).0.sessions ≡ owner_of j t.sessions
unfolding remove_all_watchers_for_connection
owner_of-unwatch_all c j t = owner_of-unwatch_each c j t.sessions

-- A connection that goes leaves the sessions of the others alone.
pub hang_up-IsLinked : (now c : ℕ) (d : Daemon) → IsLinked d → IsLinked (hang_up now c d).0
unfolding hang_up detach_all_for_connection
hang_up-IsLinked now c d w =
    let gone = detach_all_for_connection now c d.table in
    record {
      valid =
          unwatch_all-IsValid c gone.0 (detach_each-IsValid now c d.table.sessions d.table w.valid);
      linked = λ k j h.
          let (held, other) = owned_in-drop c k j d.connections h in
          let (s, found, named) = owned_found j k (lookup j d.table.sessions) (w.linked k j held) in
          let stays : owned_by c s ≡ false =
            ap (λ o. elim o [ none ↦ false | some n ↦ nat_eq n c ]) named ∙ other in
          owner_of-unwatch_all c j gone.0
          ∙ ap owner_in (
              (lookup-detach_all now c d.table j s w.valid found).0
              ∙ ap (λ b. some (if b then (detach_session now s).0 else s)) stays)
          ∙ named;
    }
