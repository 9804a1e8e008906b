-- ===== src/Session/Events/Attention.antt =====
-- The attention state machine of blemees_agent/session.py together with the outstanding set of
-- blemees_agent/notify.py.
use blemees_agent.Prelude.{
  if◌then◌else◌, Bool-cases, is_some, lookup, insert, lookup-insert, lookup-erase, ℕ, String, ◌≡◌,
  refl, sym, ap, ◌∙◌, inl, inr, true, false, ◌||◌, none, some, List, [], ◌∷◌, ◌++◌, arith, ◌==◌,
  eq_refl,
}
use blemees_agent.Notify
use blemees_agent.Notify.{
  Detail, NotifyService, Notification, dispatch, notification, agent_crashed, auth_required,
}
use blemees_agent.EventLog.{Frame, Event, result, error, needs_attention, attention_cleared}
use blemees_agent.Session.{Session, Effect, notify_fire, notify_clear, Env, ◌▸◌}
use blemees_agent.Session.Events.{
  stop_of, stamp, push_owner, push_watchers, fan_out, record_frame, publish, enter_attention,
  clear_attention, finish, stays_quiet, react, on_event, bare, fire_effect, clear_effect,
}
use blemees_agent.Session.Events.Control.{SameControl, SameControl-publish}

-- The effects of a method, as the notify service sees them.
unfoldable pub apply_effect : ℕ → Effect → NotifyService → NotifyService
apply_effect now (notify_fire reason profile id detail) svc =
    Notify.fire reason profile id detail now svc
apply_effect now (notify_clear id) svc = (Notify.clear id svc).0
apply_effect now _ svc = svc

unfoldable pub apply_effects : ℕ → List Effect → NotifyService → NotifyService
unfolding apply_effect
apply_effects now [] svc = svc
apply_effects now (e ∷ es) svc = apply_effects now es (apply_effect now e svc)

apply_effects-append :
    (now : ℕ) (es fs : List Effect) (svc : NotifyService)
    → apply_effects now (es ++ fs) svc ≡ apply_effects now fs (apply_effects now es svc)
unfolding apply_effects
apply_effects-append now [] fs svc = refl
apply_effects-append now (e ∷ es) fs svc = apply_effects-append now es fs (apply_effect now e svc)

fan_out_silent :
    (now : ℕ) (env : Env) (f : Frame) (cs : List ℕ) (svc : NotifyService)
    → apply_effects now (fan_out env f cs) svc ≡ svc
unfolding apply_effects fan_out
fan_out_silent now env f [] svc = refl
fan_out_silent now env f (c ∷ cs) svc = elim (Bool-cases (env.accepts c f)) [
  | inl took ↦ rw took (fan_out_silent now env f cs svc)
  | inr raised ↦ rw raised (fan_out_silent now env f cs svc)
]

push_owner_silent :
    (now : ℕ) (env : Env) (f : Frame) (s : Session) (svc : NotifyService)
    → apply_effects now (push_owner env f s).1 svc ≡ svc
unfolding apply_effects push_owner
push_owner_silent now env f s svc = ground arith

-- Delivering a frame notifies nobody.
publish_silent :
    (now : ℕ) (env : Env) (f : Frame) (s : Session) (svc : NotifyService)
    → apply_effects now (publish env f s).1 svc ≡ svc
unfolding publish
publish_silent now env f s svc =
    let g = stamp s f in
    let o = push_owner env g (record_frame env g s) in
    apply_effects-append now o.1 (push_watchers env g o.0).1 svc
    ∙ ap (apply_effects now (push_watchers env g o.0).1)
        (push_owner_silent now env g (record_frame env g s) svc)
    ∙ (unfold push_watchers in fan_out_silent now env g o.0.watchers svc)

-- The session is flagged just where it has an outstanding notification.
pub record InSync (s : Session) (svc : NotifyService) : Type 0 where
  pub notified : s.has_notify ≡ true
  pub flagged : is_some (lookup s.session_id svc.outstanding) ≡ s.needs_attention

InSync-control :
    {s t : Session} {svc : NotifyService} → SameControl s t → InSync s svc → InSync t svc
InSync-control {s} {t} {svc} c y = record {
  notified = c.has_notify ∙ y.notified;
  flagged =
      ap (λ k. is_some (lookup k svc.outstanding)) c.session_id ∙ y.flagged ∙ sym c.needs_attention;
}

InSync-publish :
    (now : ℕ) (env : Env) (f : Frame) {s : Session} {svc : NotifyService}
    → InSync s svc
    → InSync (publish env f s).0 (apply_effects now (publish env f s).1 svc)
InSync-publish now env f {s} {svc} y =
    rw (publish_silent now env f s svc) (InSync-control (SameControl-publish env f s) y)

outstanding-fire :
    (reason profile id : String) (detail : Detail) (now : ℕ) (svc : NotifyService)
    → (Notify.fire reason profile id detail now svc).outstanding
      ≡ insert id (notification reason profile id detail now) svc.outstanding
unfolding Notify.fire
outstanding-fire reason profile id detail now svc = ground arith

InSync-fire :
    (now : ℕ) (reason : String) (detail : Detail) (t : Session) (svc : NotifyService)
    → t.has_notify ≡ true
    → t.needs_attention ≡ true
    → InSync t (apply_effects now (fire_effect t reason detail) svc)
unfolding apply_effects
InSync-fire now reason detail t svc notified flag = record {
  notified = notified;
  flagged =
      rw flag (rw notified (rw outstanding-fire (rw lookup-insert (rw (eq_refl t.session_id)))));
}

InSync-clear :
    (now : ℕ) (s : Session) (svc : NotifyService)
    → s.has_notify ≡ true
    → is_some (lookup s.session_id (apply_effects now (clear_effect s) svc).outstanding) ≡ false
unfolding apply_effects Notify.clear
InSync-clear now s svc notified = rw notified (rw lookup-erase (rw (eq_refl s.session_id)))

InSync-enter_attention :
    (now : ℕ) (env : Env) (reason : String) (detail : Detail) (s : Session) (svc : NotifyService)
    → InSync s svc
    → InSync
        (enter_attention env reason detail s).0
        (apply_effects now (enter_attention env reason detail s).1 svc)
unfolding enter_attention
InSync-enter_attention now env reason detail s svc y = elim (Bool-cases (stays_quiet s reason)) [
  | inl quiet ↦ rw (quiet, enter_attention) (unfold apply_effects in y)
  | inr loud ↦
      let s1 = record s { needs_attention = true; attention_reason = some reason } in
      let p = publish env (bare (needs_attention reason)) s1 in
      let c = SameControl-publish env (bare (needs_attention reason)) s1 in
      rw (loud, enter_attention)
        (rw apply_effects-append (
          InSync-fire now reason detail p.0 (apply_effects now p.1 svc) (c.has_notify ∙ y.notified)
            c.needs_attention))
]

abbrev pub calmed : Session → Session
calmed s = record s { needs_attention = false; attention_reason = none }

pub clear_attention_flagged :
    (env : Env) (s : Session)
    → s.needs_attention ≡ true
    → clear_attention env s ≡ (calmed s, clear_effect s) ▸ publish env (bare attention_cleared)
unfolding clear_attention
clear_attention_flagged env s h =
    ap
      (λ b.
        if b then (calmed s, clear_effect s) ▸ publish env (bare attention_cleared) else (s, []))
      h

pub clear_attention_calm :
    (env : Env) (s : Session) → s.needs_attention ≡ false → clear_attention env s ≡ (s, [])
unfolding clear_attention
clear_attention_calm env s h =
    ap
      (λ b.
        if b then (calmed s, clear_effect s) ▸ publish env (bare attention_cleared) else (s, []))
      h

InSync-clear_attention :
    (now : ℕ) (env : Env) (s : Session) (svc : NotifyService)
    → InSync s svc
    → InSync (clear_attention env s).0 (apply_effects now (clear_attention env s).1 svc)
InSync-clear_attention now env s svc y = elim (Bool-cases s.needs_attention) [
  | inl flagged ↦
      let svc' = apply_effects now (clear_effect s) svc in
      let y' : InSync (calmed s) svc' = record {
        notified = y.notified;
        flagged = InSync-clear now s svc y.notified;
      } in
      rw (clear_attention_flagged env s flagged)
        (rw apply_effects-append (InSync-publish now env (bare attention_cleared) y'))
  | inr calm ↦ rw (clear_attention_calm env s calm) (unfold apply_effects in y)
]

finish_fields :
    (s : Session)
    → ((finish s).0.has_notify ≡ s.has_notify)
      × ((finish s).0.session_id ≡ s.session_id)
      × ((finish s).0.needs_attention ≡ s.needs_attention)
      × ((finish s).0.connection_id ≡ s.connection_id)
unfolding finish
finish_fields s = ground arith

finish_silent :
    (now : ℕ) (s : Session) (svc : NotifyService) → apply_effects now (finish s).1 svc ≡ svc
unfolding finish apply_effects
finish_silent now s svc = ground arith

InSync-finish :
    (now : ℕ) (s : Session) (svc : NotifyService)
    → InSync s svc
    → InSync (finish s).0 (apply_effects now (finish s).1 svc)
InSync-finish now s svc y =
    let (notify, id, flag, _) = finish_fields s in
    rw (finish_silent now s svc) (record {
      notified = notify ∙ y.notified;
      flagged = ap (λ k. is_some (lookup k svc.outstanding)) id ∙ y.flagged ∙ sym flag;
    })

InSync-react :
    (now : ℕ) (env : Env) (e : Event) (s : Session) (svc : NotifyService)
    → InSync s svc
    → InSync (react env e s).0 (apply_effects now (react env e s).1 svc)
unfolding react
InSync-react now env (result stop usage) s svc y =
    let o = enter_attention env Notify.turn_complete (Notify.turn_finished (stop_of stop)) s in
    rw apply_effects-append (
      InSync-finish now o.0 (apply_effects now o.1 svc)
        (InSync-enter_attention now env _ _ s svc y))
InSync-react now env (error code message) s svc y =
    elim (Bool-cases (code == agent_crashed || code == auth_required)) [
      | inl known ↦ rw (known, react) (InSync-enter_attention now env code _ s svc y)
      | inr unknown ↦ rw (unknown, react) (unfold apply_effects in y)
    ]
InSync-react now env _ s svc y = unfold apply_effects in y

-- A session that notifies is flagged as needing attention exactly while it has an entry in the
-- outstanding set of the notify service: every event that its backend emits keeps the two in step.
pub InSync-on_event :
    (now : ℕ) (env : Env) (f : Frame) (s : Session) (svc : NotifyService)
    → InSync s svc
    → InSync (on_event env f s).0 (apply_effects now (on_event env f s).1 svc)
unfolding on_event
InSync-on_event now env f s svc y = rw apply_effects-append (
    InSync-react now env f.event (publish env f s).0 (apply_effects now (publish env f s).1 svc)
      (InSync-publish now env f y))
