-- ===== src/Table/Detach/Reattach.antt =====
-- A session whose owner left in the middle of a turn and came back (blemees_agent/session.py).
use blemees_agent.Prelude.{
  Bool-cases, In, Dict, ℕ, String, ◌≡◌, refl, ◌∙◌, inl, inr, Bool, true, Option, none, some, arith,
}
use blemees_agent.Value.{Value}
use blemees_agent.EventLog.{Frame, result, attention_cleared}
use blemees_agent.Session.{Session, Backend, soft_kill, Env}
use blemees_agent.Session.Events.{clear_attention, on_event, bare}
use blemees_agent.Session.Events.Control.{SameControl-publish}
use blemees_agent.Session.Events.Attention.{calmed, clear_attention_flagged, clear_attention_calm}
use blemees_agent.Session.Events.Finish.{on_event-soft_kill}
use blemees_agent.Session.Attach.{
  Gap, attach, replay_to, after_replay, take_over, gap_of, send_all, replay_frames,
}
use blemees_agent.Table.{detach_session, active_turn}
use blemees_agent.Table.Detach.{detach_session_lem}

-- Who owns the session, and what will become of its backend.
pub record SameFate (s t : Session) : Type 0 where
  pub connection_id : t.connection_id ≡ s.connection_id
  pub finishing : t.finishing ≡ s.finishing
  pub backend : t.backend ≡ s.backend

SameFate-clear_attention : (env : Env) (s : Session) → SameFate s (clear_attention env s).0
SameFate-clear_attention env s = elim (Bool-cases s.needs_attention) [
  | inl flagged ↦
      let c = SameControl-publish env (bare attention_cleared) (calmed s) in
      rw (clear_attention_flagged env s flagged)
        (record { connection_id = c.connection_id; finishing = c.finishing; backend = c.backend })
  | inr calm ↦
      rw (clear_attention_calm env s calm)
        (record { connection_id = refl; finishing = refl; backend = refl })
]

SameFate-after_replay :
    (takes : Frame → Bool) (s : Session) (seen : ℕ) (o : Option Gap)
    → SameFate s (after_replay takes s seen o)
unfolding after_replay
SameFate-after_replay takes s seen none = record {
  connection_id = refl;
  finishing = refl;
  backend = refl;
}
SameFate-after_replay takes s seen (some gap) = ground arith

SameFate-trans : {s t u : Session} → SameFate s t → SameFate t u → SameFate s u
SameFate-trans a b = record {
  connection_id = b.connection_id ∙ a.connection_id;
  finishing = b.finishing ∙ a.finishing;
  backend = b.backend ∙ a.backend;
}

SameFate-attach :
    (env : Env) (c : ℕ) (seen : Option ℕ) (s : Session)
    → SameFate (take_over c s) (attach env c seen s).0
unfolding attach replay_to
SameFate-attach env c none s = SameFate-clear_attention env (take_over c s)
SameFate-attach env c (some seen) s =
    let u = take_over c s in
    let gap = gap_of u seen in
    let t = after_replay (env.accepts c) u seen gap in
    let f = SameFate-after_replay (env.accepts c) u seen gap in
    elim (Bool-cases (send_all (env.accepts c) c (replay_frames u seen gap)).1) [
      | inl sent ↦ rw (sent, replay_to) (SameFate-trans f (SameFate-clear_attention env t))
      | inr raised ↦ rw (raised, replay_to) f
    ]

-- Attaching does not take back the mark of a session that was detached in the middle of a turn:
-- when that turn ends, the backend is killed under its new owner.
pub on_event-reattached :
    (env : Env) (now c : ℕ) (seen : Option ℕ) (stop : Option String) (usage : Option (Dict Value))
    (s : Session) (b : Backend)
    → s.backend ≡ some b
    → active_turn s ≡ true
    → ((attach env c seen (detach_session now s).0).0.connection_id ≡ some c)
      × In soft_kill
          (on_event env (bare (result stop usage)) (attach env c seen (detach_session now s).0).0).1
on_event-reattached env now c seen stop usage s b there busy =
    let (going, kept, _) = (detach_session_lem now s).3 busy in
    let f = SameFate-attach env c seen (detach_session now s).0 in
    (
      f.connection_id,
      on_event-soft_kill env stop usage _ b c (f.finishing ∙ going) (f.backend ∙ kept ∙ there)
          f.connection_id,
    )
