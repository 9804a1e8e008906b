-- ===== src/Session/Events/Control.antt =====
-- What the delivery of a frame leaves alone (blemees_agent/session.py, `on_event`).
use blemees_agent.Prelude.{ℕ, ◌+◌, ◌≡◌, ◌∙◌, arith}
use blemees_agent.EventLog.{Frame, Event}
use blemees_agent.EventLog.Ring.{append}
use blemees_agent.Session.{Session, Env}
use blemees_agent.Session.Usage.{update_usage}
use blemees_agent.Session.Events.{stamp, record_frame, push_owner, push_watchers, publish}

-- The fields that steer the session are the same in `t` as in `s`.
pub record SameControl (s t : Session) : Type 0 where
  pub session_id : t.session_id ≡ s.session_id
  pub connection_id : t.connection_id ≡ s.connection_id
  pub backend : t.backend ≡ s.backend
  pub detached_at : t.detached_at ≡ s.detached_at
  pub finishing : t.finishing ≡ s.finishing
  pub needs_attention : t.needs_attention ≡ s.needs_attention
  pub attention_reason : t.attention_reason ≡ s.attention_reason
  pub attention_triggers : t.attention_triggers ≡ s.attention_triggers
  pub has_notify : t.has_notify ≡ s.has_notify
  pub profile_name : t.profile_name ≡ s.profile_name
  pub pending_permissions : t.pending_permissions ≡ s.pending_permissions
  pub waiters : t.waiters ≡ s.waiters

SameControl-trans : {s t u : Session} → SameControl s t → SameControl t u → SameControl s u
SameControl-trans a b = record {
  session_id = b.session_id ∙ a.session_id;
  connection_id = b.connection_id ∙ a.connection_id;
  backend = b.backend ∙ a.backend;
  detached_at = b.detached_at ∙ a.detached_at;
  finishing = b.finishing ∙ a.finishing;
  needs_attention = b.needs_attention ∙ a.needs_attention;
  attention_reason = b.attention_reason ∙ a.attention_reason;
  attention_triggers = b.attention_triggers ∙ a.attention_triggers;
  has_notify = b.has_notify ∙ a.has_notify;
  profile_name = b.profile_name ∙ a.profile_name;
  pending_permissions = b.pending_permissions ∙ a.pending_permissions;
  waiters = b.waiters ∙ a.waiters;
}

SameControl-update_usage : (n : ℕ) (e : Event) (s : Session) → SameControl s (update_usage n e s)
unfolding update_usage
SameControl-update_usage n e s = ground arith

SameControl-push_owner :
    (env : Env) (f : Frame) (s : Session) → SameControl s (push_owner env f s).0
unfolding push_owner
SameControl-push_owner env f s = ground arith

SameControl-record_frame :
    (env : Env) (f : Frame) (s : Session) → SameControl s (record_frame env f s)
unfolding record_frame
SameControl-record_frame env f s = ground arith

SameControl-push_watchers :
    (env : Env) (f : Frame) (s : Session) → SameControl s (push_watchers env f s).0
unfolding push_watchers
SameControl-push_watchers env f s = ground arith

pub SameControl-publish : (env : Env) (f : Frame) (s : Session) → SameControl s (publish env f s).0
unfolding publish
SameControl-publish env f s =
    let g = stamp s f in
    let r = record_frame env g s in
    SameControl-trans (SameControl-record_frame env g s) (
      SameControl-trans (SameControl-push_owner env g r)
        (SameControl-push_watchers env g (push_owner env g r).0))

update_usage_stream :
    (n : ℕ) (e : Event) (s : Session)
    → ((update_usage n e s).seq ≡ s.seq) × ((update_usage n e s).ring ≡ s.ring)
unfolding update_usage
update_usage_stream n e s = ground arith

push_owner_stream :
    (env : Env) (f : Frame) (s : Session)
    → ((push_owner env f s).0.seq ≡ s.seq) × ((push_owner env f s).0.ring ≡ s.ring)
unfolding push_owner
push_owner_stream env f s = ground arith

record_frame_stream :
    (env : Env) (f : Frame) (s : Session)
    → ((record_frame env f s).seq ≡ s.seq + 1) × ((record_frame env f s).ring ≡ append s.ring f)
unfolding record_frame
record_frame_stream env f s = ground arith

pub publish_stream :
    (env : Env) (f : Frame) (s : Session)
    → ((publish env f s).0.seq ≡ s.seq + 1) × ((publish env f s).0.ring ≡ append s.ring (stamp s f))
unfolding publish
publish_stream env f s =
    let g = stamp s f in
    let a = push_owner_stream env g (record_frame env g s) in
    let b = record_frame_stream env g s in (a.0 ∙ b.0, a.1 ∙ b.1)
