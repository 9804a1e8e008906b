-- ===== src/Session/Events/Finish.antt =====
-- The soft kill after a turn, and the quiet of an attached session (blemees_agent/session.py).
use blemees_agent.Prelude.{
  In, Dict, ℕ, String, ◌≡◌, ◌∙◌, inr, true, Option, some, List, [], ◌∷◌, ◌++◌, arith,
}
use blemees_agent.Value.{Value}
use blemees_agent.Notify.{Detail, turn_complete, turn_finished}
use blemees_agent.EventLog.{result}
use blemees_agent.Session.{Session, soft_kill, Env, Backend}
use blemees_agent.Session.Events.{
  publish, enter_attention, stays_quiet, finish, react, on_event, bare, stop_of,
}
use blemees_agent.Session.Events.Control.{SameControl-publish}

stays_owned :
    (reason : String) (s : Session) (c : ℕ) → s.connection_id ≡ some c → stays_quiet s reason ≡ true
unfolding stays_quiet
stays_owned reason s c owned = ground arith

-- While an owner is attached nothing raises attention.
pub quiet_while_owned :
    (env : Env) (reason : String) (detail : Detail) (s : Session) (c : ℕ)
    → s.connection_id ≡ some c
    → enter_attention env reason detail s ≡ (s, [])
unfolding enter_attention
quiet_while_owned env reason detail s c owned = rw (stays_owned reason s c owned, enter_attention)

In-append_right : {A : Type 0} (a : A) (xs ys : List A) → In a ys → In a (xs ++ ys)
In-append_right a [] ys i = i
In-append_right a (x ∷ xs) ys i = inr (In-append_right a xs ys i)

finish_kills :
    (s : Session) (b : Backend)
    → s.finishing ≡ true
    → s.backend ≡ some b
    → In soft_kill (finish s).1
unfolding finish
finish_kills s b going there = ground arith

-- The result of a turn kills the backend of a session that is marked as finishing, also where an
-- owner is attached.
pub on_event-soft_kill :
    (env : Env) (stop : Option String) (usage : Option (Dict Value)) (s : Session) (b : Backend)
    (c : ℕ)
    → s.finishing ≡ true
    → s.backend ≡ some b
    → s.connection_id ≡ some c
    → In soft_kill (on_event env (bare (result stop usage)) s).1
unfolding on_event react
on_event-soft_kill env stop usage s b c going there owned =
    let p = publish env (bare (result stop usage)) s in
    let k = SameControl-publish env (bare (result stop usage)) s in
    let quiet =
      quiet_while_owned env turn_complete (turn_finished (stop_of stop)) p.0 c
        (k.connection_id ∙ owned) in
    In-append_right soft_kill p.1 _
      (rw quiet (finish_kills p.0 b (k.finishing ∙ going) (k.backend ∙ there)))
