-- ===== src/Daemon/Dispatch/Replies/Handlers.antt =====
-- What each handler of blemees_agent/daemon.py answers.
use mathlib.Core.Path.{subst}
use blemees_agent.Prelude.{
  nat_eq, if◌then◌else◌, Bool-cases, Option-cases, List-cases, is_some, any_of, In, Dict, ℕ, String,
  ◌≡◌, refl, sym, ap, ◌⊎◌, inl, inr, Bool, true, false, not, ◌&&◌, ◌||◌, Option, none, some, List,
  [], ◌∷◌, ◌++◌,
}
use blemees_agent.Errors.{
  ErrorCode, session_unknown, unsafe_flag_error, unknown_backend_error, protocol_error, type_error,
  request_error, code_of, Failure, Result, ok, err, Result-cases, auth_required_error,
  spawn_failed_error,
}
use blemees_agent.Protocol.Messages.{
  OpenMessage, AttachMessage, DetachMessage, CloseMessage, CancelMessage, ProfileActionMessage,
  SessionInfoMessage,
}
use blemees_agent.Session.{Session, Env}
use blemees_agent.Supervisor.{Supervisor, resolve, make_handle, stop}
use blemees_agent.Supervisor.Profiles.{Profile, Agent}
use blemees_agent.Table.{remove}
use blemees_agent.Daemon.{
  table_effects, change, disown, closed_reply, error_reply, Daemon, DaemonEffect, Handled, Reply,
  reply, owns, try_get, Spawned, is_running, opened_reply, cancelled_reply, attached_reply,
  detached_reply, info_reply, profile_stopped,
}
use blemees_agent.Daemon.Open.{
  resume_id, claim, wired, adopt, give_up, spawn_failed, serve_open, spawn_open, handle_open,
}
use blemees_agent.Daemon.Drive.{tell_watchers, handle_cancel, handle_close}
use blemees_agent.Daemon.Ownership.Attach.{Role-cases}
use blemees_agent.Daemon.Attach.{
  attach_viewer, attach_owner, detach_viewer, handle_attach, handle_detach,
}
use blemees_agent.Daemon.Profiles.{
  live_sessions_for, answered_by, unless_in_use, handle_profile_stop,
}
use blemees_agent.Daemon.Info.{handle_session_info}
use blemees_agent.Session.Summary.{usage_snapshot}
use blemees_agent.Session.Attach.{remove_watcher}
use blemees_agent.Session.Attach.Replay.{In-append_left}
use blemees_agent.Registry.{get_record}
use blemees_agent.Prelude.Int.{ℤ}
use blemees_agent.Value.{Value}
use blemees_agent.Daemon.Steps.{settle, error_frame}

-- A reply that `P` accepts goes out on the connection.
pub record HasReply (P : Reply → Type 0) (c : ℕ) (es : List DaemonEffect) : Type 0 where
  pub frame : Reply
  pub fits : P frame
  pub sent : In (reply c frame) es

-- An error frame.
abbrev pub IsError : Reply → Type 0
IsError r = (code : ErrorCode) × (id session : Option String) × (r ≡ error_reply code id session)

-- A handler that leaves an exception has its reply from `_dispatch`, which is an error frame.
abbrev pub IsAnswered : (Reply → Type 0) → ℕ → Handled → Type 0
IsAnswered P c h =
    (((e : Failure) × (h.2 ≡ err e)) × ((r : Reply) → IsError r → P r)) ⊎ HasReply P c h.1

HasReply-later :
    {P : Reply → Type 0} (c : ℕ) (es fs : List DaemonEffect)
    → HasReply P c fs
    → HasReply P c (es ++ fs)
HasReply-later c [] fs r = r
HasReply-later c (e ∷ es) fs r =
    let later = HasReply-later c es fs r in
    record { frame = later.frame; fits = later.fits; sent = inr later.sent }

pub HasReply-first :
    (P : Reply → Type 0) (c : ℕ) (r : Reply) (es : List DaemonEffect)
    → P r
    → HasReply P c (reply c r ∷ es)
HasReply-first P c r es p = record { frame = r; fits = p; sent = inl refl }

HasReply-wider :
    {P : Reply → Type 0} (c : ℕ) (es fs : List DaemonEffect)
    → HasReply P c es
    → HasReply P c (es ++ fs)
HasReply-wider c es fs r = record {
  frame = r.frame;
  fits = r.fits;
  sent = In-append_left _ es fs r.sent;
}

error_frame-IsError :
    (id session : Option String) (e : Failure) → IsError (error_frame id session e)
unfolding error_frame
error_frame-IsError id session (unsafe_flag_error why) = (_, _, _, refl)
error_frame-IsError id session (unknown_backend_error why) = (_, _, _, refl)
error_frame-IsError id session (protocol_error why) = (_, _, _, refl)
error_frame-IsError id session type_error = (_, _, _, refl)
error_frame-IsError id session (request_error why) = (_, _, _, refl)
error_frame-IsError id session _ = (_, _, _, refl)

IsAnswered-if :
    {P : Reply → Type 0} (b : Bool) (c : ℕ) (x y : Handled)
    → IsAnswered P c x
    → IsAnswered P c y
    → IsAnswered P c (if b then x else y)
IsAnswered-if true c x y k l = k
IsAnswered-if false c x y k l = l

pub settle-HasReply :
    (P : Reply → Type 0) (c : ℕ) (id session : Option String) (h : Handled)
    → IsAnswered P c h
    → HasReply P c (settle c id session h).1
unfolding settle
settle-HasReply P c id session (d, es, ok u) (inl ((e, raised), _)) = cc
settle-HasReply P c id session (d, es, ok u) (inr r) = r
settle-HasReply P c id session (d, es, err e) (inl (_, errs)) =
    HasReply-later c es _ (HasReply-first P c _ [] (errs _ (error_frame-IsError id session e)))
settle-HasReply P c id session (d, es, err e) (inr r) = HasReply-wider c es _ r

-- The reply to an open: the session, or an error frame.
abbrev pub AnswersOpen : OpenMessage → Reply → Type 0
AnswersOpen msg r =
    ((profile agent : String) × (seq : ℕ) × (view_only : Bool) × (native : Option String) × (r
        ≡ opened_reply msg.id msg.session_id profile agent seq view_only native))
    ⊎ IsError r

give_up-IsAnswered :
    (c : ℕ) (msg : OpenMessage) (e : Failure) (d : Daemon) (es : List DaemonEffect)
    → IsAnswered (AnswersOpen msg) c (give_up c msg e d es)
unfolding give_up
give_up-IsAnswered c msg e d es =
    let last = reply c (error_reply (code_of e) msg.id (some msg.session_id)) ∷ [] in
    let done = table_effects (remove msg.session_id false d.table).1 in
    inr (HasReply-later c (es ++ done) last (HasReply-first _ c _ [] (inr (_, _, _, refl))))

spawn_failed-IsAnswered :
    (c : ℕ) (msg : OpenMessage) (e : Failure) (d : Daemon) (es : List DaemonEffect)
    → IsAnswered (AnswersOpen msg) c (spawn_failed c msg e d es)
unfolding spawn_failed
spawn_failed-IsAnswered c msg (auth_required_error why) d es = give_up-IsAnswered c msg _ d es
spawn_failed-IsAnswered c msg (spawn_failed_error why) d es = give_up-IsAnswered c msg _ d es
spawn_failed-IsAnswered c msg _ d es = inl ((_, refl), λ r e. inr e)

serve_open-IsAnswered :
    (env : Env) (c now : ℕ) (msg : OpenMessage) (profile : Profile) (agent : Agent) (s : Session)
    (d : Daemon) (es : List DaemonEffect)
    → IsAnswered (AnswersOpen msg) c (serve_open env c now msg profile agent s d es)
unfolding serve_open
serve_open-IsAnswered env c now msg profile agent s d es =
    inr (HasReply-later c es _ (HasReply-first _ c _ _ (inl (_, _, _, _, _, refl))))

spawn_open-IsAnswered :
    (going : Bool) (env : Env) (c now : ℕ) (msg : OpenMessage)
    (answer : Option String → Result Spawned) (profile : Profile) (agent : Agent) (s : Session)
    (d : Daemon) (es : List DaemonEffect)
    → IsAnswered (AnswersOpen msg) c (spawn_open going env c now msg answer profile agent s d es)
unfolding spawn_open
spawn_open-IsAnswered true env c now msg answer profile agent s d es =
    serve_open-IsAnswered env c now msg profile agent s _ es
spawn_open-IsAnswered false env c now msg answer profile agent s d es =
    elim (Result-cases (make_handle msg.profile msg.agent d.supervisor)) [
      | inl (e, raised) ↦ rw (raised, spawn_open) (inl ((e, refl), λ r x. inr x))
      | inr (supervisor, made) ↦ elim (Result-cases (answer (resume_id msg s d))) [
        | inl (e, failed) ↦ rw (made, failed, spawn_open) (spawn_failed-IsAnswered c msg e _ es)
        | inr (info, there) ↦
            rw (made, there, spawn_open)
              (serve_open-IsAnswered env c now msg profile agent (adopt info s) _ es)
      ]
    ]

pub handle_open-IsAnswered :
    (env : Env) (c now : ℕ) (msg : OpenMessage) (answer : Option String → Result Spawned)
    (d : Daemon)
    → IsAnswered (AnswersOpen msg) c (handle_open env c now msg answer d)
unfolding handle_open
handle_open-IsAnswered env c now msg answer d =
    elim (Result-cases (resolve msg.profile msg.agent d.supervisor)) [
      | inl (e, raised) ↦ rw (raised, handle_open) (inl ((e, refl), λ r x. inr x))
      | inr (found, resolved) ↦ elim (Option-cases found.1) [
        | inl nothing ↦ rw (resolved, nothing, handle_open) (inl ((_, refl), λ r x. inr x))
        | inr (agent, there) ↦ elim (Result-cases (claim c now msg (try_get msg.session_id d) d)) [
          | inl (e, raised) ↦
              rw (resolved, there, raised, handle_open) (inl ((e, refl), λ r x. inr x))
          | inr (r, done) ↦
              rw (resolved, there, done, handle_open)
                (spawn_open-IsAnswered _ env c now msg answer found.0 agent (wired msg found.0 r.2)
                  r.0 r.1)
        ]
      ]
    ]

-- The reply to a cancel is never an error: `was_idle` is false exactly where the connection owns a
-- session that has a backend, and the agent was interrupted.
abbrev pub was_idle : ℕ → CancelMessage → Bool → Daemon → Bool
was_idle c msg killed d =
    if owns c msg.session_id d
    then elim (try_get msg.session_id d) [
      | none ↦ true
      | some s ↦ not (is_some s.backend && killed)
    ]
    else true

abbrev pub AnswersCancel : ℕ → CancelMessage → Bool → Daemon → Reply → Type 0
AnswersCancel c msg killed d r = r ≡ cancelled_reply msg.session_id (was_idle c msg killed d)

handle_cancel_lem :
    (c : ℕ) (msg : CancelMessage) (killed : Bool) (d : Daemon)
    → (handle_cancel c msg killed d).1
      ≡ reply c (cancelled_reply msg.session_id (was_idle c msg killed d)) ∷ []
unfolding handle_cancel
handle_cancel_lem c msg killed d = elim (Bool-cases (owns c msg.session_id d)) [
  | inr foreign ↦ rw (foreign, handle_cancel) refl
  | inl mine ↦ elim (Option-cases (try_get msg.session_id d)) [
    | inl gone ↦ rw (mine, gone, handle_cancel) refl
    | inr (s, found) ↦ elim (Bool-cases (is_some s.backend)) [
      | inl there ↦ rw (mine, found, there, handle_cancel) refl
      | inr away ↦ rw (mine, found, away, handle_cancel) refl
    ]
  ]
]

pub handle_cancel-IsAnswered :
    (c : ℕ) (msg : CancelMessage) (killed : Bool) (d : Daemon)
    → IsAnswered (AnswersCancel c msg killed d) c (handle_cancel c msg killed d)
handle_cancel-IsAnswered c msg killed d =
    let P = AnswersCancel c msg killed d in
    inr
      (subst (HasReply P c) (sym (handle_cancel_lem c msg killed d)) (HasReply-first P c _ [] refl))

pub handle_close-IsAnswered :
    (env : Env) (c : ℕ) (msg : CloseMessage) (d : Daemon)
    → IsAnswered (λ r. r ≡ closed_reply msg.id msg.session_id) c (handle_close env c msg d)
unfolding handle_close
handle_close-IsAnswered env c msg d = elim (Bool-cases (owns c msg.session_id d)) [
  | inr foreign ↦ rw (foreign, handle_close) (inr (HasReply-first _ c _ [] refl))
  | inl mine ↦
      let id = msg.session_id in
      let told = tell_watchers env id (change c (disown id) d) in
      let done = table_effects (remove id msg.delete told.0.table).1 in
      let last = reply c (closed_reply msg.id id) ∷ [] in
      rw (mine, handle_close)
        (inr (HasReply-later c (told.1 ++ done) last (HasReply-first _ c _ [] refl)))
]

-- The reply to an attach: with the role that was asked for, or that the session is unknown.
abbrev pub AnswersAttach : AttachMessage → Option Session → Reply → Type 0
AnswersAttach msg none r = r ≡ error_reply session_unknown msg.id (some msg.session_id)
AnswersAttach msg (some s) r = (seq : ℕ) × (r ≡ attached_reply msg.id msg.session_id msg.role seq)

pub handle_attach-IsAnswered :
    (env : Env) (c : ℕ) (msg : AttachMessage) (d : Daemon)
    → IsAnswered (AnswersAttach msg (try_get msg.session_id d)) c (handle_attach env c msg d)
unfolding handle_attach attach_viewer attach_owner
handle_attach-IsAnswered env c msg d = elim (Option-cases (try_get msg.session_id d)) [
  | inl gone ↦ rw (gone, handle_attach) (inr (HasReply-first _ c _ [] refl))
  | inr (s, found) ↦ elim (Role-cases msg.role) [
    | inl as_owner ↦
        rw (found, as_owner, handle_attach)
          (inr (HasReply-later c _ _ (HasReply-first _ c _ _ (_, refl))))
    | inr as_viewer ↦
        rw (found, as_viewer, handle_attach)
          (inr (HasReply-later c _ _ (HasReply-first _ c _ [] (_, refl))))
  ]
]

-- The reply to a detach: `was_attached` is true for the owner and for a viewer.
abbrev pub was_attached : ℕ → DetachMessage → Daemon → Bool
was_attached c msg d = owns c msg.session_id d || elim (try_get msg.session_id d) [
  | none ↦ false
  | some s ↦ any_of (λ k. nat_eq k c) s.watchers
]

detach_viewer_lem :
    (c : ℕ) (id : String) (d : Daemon)
    → (detach_viewer c id d).1
      ≡ elim (try_get id d) [ none ↦ false | some s ↦ any_of (λ k. nat_eq k c) s.watchers ]
unfolding detach_viewer remove_watcher
detach_viewer_lem c id d = elim (Option-cases (try_get id d)) [
  | inl gone ↦ rw (gone, detach_viewer) refl
  | inr (s, found) ↦ rw (found, detach_viewer) refl
]

handle_detach_lem :
    (now c : ℕ) (msg : DetachMessage) (d : Daemon)
    → (handle_detach now c msg d).1
      ≡ reply c (detached_reply msg.id msg.session_id (was_attached c msg d)) ∷ []
unfolding handle_detach
handle_detach_lem now c msg d = elim (Bool-cases (owns c msg.session_id d)) [
  | inl mine ↦ rw (mine, handle_detach) refl
  | inr foreign ↦
      rw (foreign, handle_detach)
        (ap (λ b. reply c (detached_reply msg.id msg.session_id b) ∷ [])
          (detach_viewer_lem c msg.session_id d))
]

pub handle_detach-IsAnswered :
    (now c : ℕ) (msg : DetachMessage) (d : Daemon)
    → IsAnswered
        (λ r. r ≡ detached_reply msg.id msg.session_id (was_attached c msg d))
        c
        (handle_detach now c msg d)
handle_detach-IsAnswered now c msg d =
    let P = λ (r : Reply). r ≡ detached_reply msg.id msg.session_id (was_attached c msg d) in
    inr (subst (HasReply P c) (sym (handle_detach_lem now c msg d)) (HasReply-first P c _ [] refl))

-- The reply of a session's information, where the table or the registry knows the session.
abbrev pub AnswersInfo : SessionInfoMessage → Daemon → Reply → Type 0
AnswersInfo msg d r =
    if is_some (try_get msg.session_id d) || is_some (get_record msg.session_id d.registry)
    then ((row : Dict Value) × (r ≡ info_reply msg.id row)) ⊎ IsError r
    else (r ≡ error_reply session_unknown msg.id (some msg.session_id))

pub handle_session_info-IsAnswered :
    (to_int : Value → Option ℤ) (c : ℕ) (msg : SessionInfoMessage) (d : Daemon)
    → IsAnswered (AnswersInfo msg d) c (handle_session_info to_int c msg d)
unfolding handle_session_info
handle_session_info-IsAnswered to_int c msg d = elim (Option-cases (try_get msg.session_id d)) [
  | inl gone ↦ elim (Option-cases (get_record msg.session_id d.registry)) [
    | inl unknown ↦
        rw (gone, unknown, handle_session_info)
          (inr (HasReply-first _ c _ [] (rw (gone, unknown) refl)))
    | inr (fields, known) ↦
        rw (gone, known, handle_session_info)
          (inr (HasReply-first _ c _ [] (rw (gone, known) (inl (_, refl)))))
  ]
  | inr (s, found) ↦
      elim (Result-cases
        (usage_snapshot to_int (is_some s.connection_id) (is_running s.backend) s)) [
          | inl (e, raised) ↦
              rw (found, raised, handle_session_info) (inl ((e, refl), λ r x. inr x))
          | inr (snapshot, there) ↦
              rw (found, there, handle_session_info)
                (inr (HasReply-first _ c _ [] (rw found (inl (_, refl)))))
        ]
]

-- The reply that was meant, or an error frame.
abbrev pub Answers : Reply → Reply → Type 0
Answers ack r = (r ≡ ack) ⊎ IsError r

pub answered_by-IsAnswered :
    (c : ℕ) (ack : Reply) (d : Daemon) (r : Result Supervisor)
    → IsAnswered (Answers ack) c (answered_by c ack d r)
answered_by-IsAnswered c ack d (ok s) = inr (HasReply-first _ c ack [] (inl refl))
answered_by-IsAnswered c ack d (err e) = inl ((e, refl), λ r x. inr x)

pub unless_in_use-IsAnswered :
    (c : ℕ) (id : Option String) (name : String) (ack : Reply) (d : Daemon) (next : Handled)
    → IsAnswered (Answers ack) c next
    → IsAnswered (Answers ack) c (unless_in_use c id name d next)
unless_in_use-IsAnswered c id name ack d next k = elim (List-cases (live_sessions_for name d)) [
  | inl e ↦ rw (e, unless_in_use) k
  | inr (s, rest, e) ↦ rw (e, unless_in_use) (inr (HasReply-first _ c _ [] (inr (_, _, _, refl))))
]

abbrev pub AnswersStop : ProfileActionMessage → Reply → Type 0
AnswersStop msg r = ((n : ℕ) × (r ≡ profile_stopped msg.id msg.name n)) ⊎ IsError r

pub handle_profile_stop-IsAnswered :
    (c : ℕ) (msg : ProfileActionMessage) (d : Daemon)
    → IsAnswered (AnswersStop msg) c (handle_profile_stop c msg d)
unfolding handle_profile_stop
handle_profile_stop-IsAnswered c msg d = elim (Result-cases (stop (some msg.name) d.supervisor)) [
  | inl (e, raised) ↦ rw (raised, handle_profile_stop) (inl ((e, refl), λ r x. inr x))
  | inr (r, done) ↦ rw (done, handle_profile_stop) (inr (HasReply-first _ c _ [] (inl (_, refl))))
]
