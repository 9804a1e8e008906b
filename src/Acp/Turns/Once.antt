-- ===== src/Acp/Turns/Once.antt =====
-- The frames that end a turn (blemees_agent/backends/acp.py).
use blemees_agent.Prelude.{
  if◌then◌else◌, Option-cases, lookup, insert, lookup-insert, String, ◌≡◌, refl, sym, ap, ◌∙◌, ◌⊎◌,
  inl, inr, Bool, true, false, ◌&&◌, ◌||◌, none, some, List, [], ◌∷◌, eq_refl,
}
use blemees_agent.EventLog.{Event, update, result, error}
use blemees_agent.Value.{Value}
use blemees_agent.Acp.Process.{
  Task, no_task, in_flight, cancelling, done, is_open, SessionState, Process, Emit, cancel_turn,
  session_update,
}
use mathlib.Core.Path.{subst}
use blemees_agent.Acp.{Raised}
use blemees_agent.Acp.Turns.{
  over, answered, prompt_raises, raise_at, run_at, Answer, run_task, run_turn, turn_ends, cancel,
  cancel_at, interrupt_turn,
}

-- The frames that tell a client that its turn is over.
abbrev pub is_terminal : Event → Bool
is_terminal (result stop usage) = true
is_terminal (error code message) = true
is_terminal _ = false

-- A turn that is under way, and that the user may have interrupted, but that no crash has met.
pub record UnderWay (st : SessionState) : Type 0 where
  pub active : st.turn_active ≡ true
  pub uncrashed : st.notified_crash ≡ false
  pub task : (st.task ≡ in_flight) ⊎ ((st.task ≡ cancelling) × (st.cancelled ≡ true))

-- What the run of a task gives where it ends the turn.
abbrev Ends : Answer → SessionState → SessionState × List Emit → Type 0
Ends again st r =
    ((e : Event) × (r.1 ≡ (st.target, e) ∷ []) × (is_terminal e ≡ true))
    × (r.0.turn_active ≡ false)
    × (run_task again r.0 ≡ (r.0, []))

raise_at-Ends :
    (again : Answer) (r : Raised) (st : SessionState) → Ends again st (raise_at false r st)
unfolding run_task run_at
raise_at-Ends again r st = ((_, refl, refl), refl, refl)

turn_ends-Ends :
    (again answer : Answer) (st : SessionState)
    → st.notified_crash ≡ false
    → Ends again st (turn_ends answer st)
unfolding turn_ends run_task run_at
turn_ends-Ends again (answered stop usage) st e = ((_, refl, refl), refl, refl)
turn_ends-Ends again (prompt_raises r) st e =
    subst (λ b. Ends again st (raise_at b r st)) (sym e) (raise_at-Ends again r st)

cancelled-Ends :
    (again : Answer) (st : SessionState)
    → st.task ≡ cancelling
    → st.cancelled ≡ true
    → Ends again st (over st, cancel_turn st)
unfolding run_task run_at cancel_turn
cancelled-Ends again st e c = (
  (_, ap (λ b. if b then (st.target, result (some "cancelled") none) ∷ [] else []) both, refl),
  refl,
  refl,
)
  where
    both : (is_open st.task && st.cancelled) ≡ true
    both = ap (λ t. is_open t && st.cancelled) e ∙ c

task_in_flight :
    (answer : Answer) (st : SessionState)
    → st.task ≡ in_flight
    → run_task answer st ≡ turn_ends answer st
unfolding run_task run_at
task_in_flight answer st e = ap (λ t. run_at t answer st) e

task_cancelling :
    (answer : Answer) (st : SessionState)
    → st.task ≡ cancelling
    → run_task answer st ≡ (over st, cancel_turn st)
unfolding run_task run_at
task_cancelling answer st e = ap (λ t. run_at t answer st) e

-- When the task of a turn that is under way runs on, whatever the agent answers, exactly one
-- frame comes of it: for the session's own target, and one that ends the turn. The turn is then
-- over, and running the task again gives no frame and changes nothing.
pub run_task-once :
    (answer again : Answer) (st : SessionState)
    → UnderWay st
    → ((e : Event) × ((run_task answer st).1 ≡ (st.target, e) ∷ []) × (is_terminal e ≡ true))
      × ((run_task answer st).0.turn_active ≡ false)
      × (run_task again (run_task answer st).0 ≡ ((run_task answer st).0, []))
run_task-once answer again st h = elim h.task [
  | inl e ↦
      subst (Ends again st) (sym (task_in_flight answer st e))
        (turn_ends-Ends again answer st h.uncrashed)
  | inr (e, c) ↦
      subst (Ends again st) (sym (task_cancelling answer st e)) (cancelled-Ends again st e c)
]

turn_ends-cancelled :
    (answer : Answer) (st : SessionState) → (turn_ends answer st).0.cancelled ≡ st.cancelled
unfolding turn_ends
turn_ends-cancelled (answered stop usage) st = refl
turn_ends-cancelled (prompt_raises r) st = raised st.notified_crash
  where
    raised : (b : Bool) → (raise_at b r st).0.cancelled ≡ st.cancelled
    raised true = refl
    raised false = refl

run_at-cancelled :
    (t : Task) (answer : Answer) (st : SessionState)
    → (run_at t answer st).0.cancelled ≡ st.cancelled
unfolding run_at
run_at-cancelled in_flight answer st = turn_ends-cancelled answer st
run_at-cancelled cancelling answer st = refl
run_at-cancelled no_task answer st = refl
run_at-cancelled done answer st = refl

dropped_update :
    (id : String) (v : Value) (st : SessionState) (p : Process)
    → lookup id p.sessions ≡ some st
    → st.cancelled ≡ true
    → session_update id v p ≡ []
unfolding session_update
dropped_update id v st p held c =
    rw (held, session_update)
      (ap (λ b. if b || st.notified_crash || st.loading then [] else (st.target, update v) ∷ []) c)

updated_there :
    (id : String) (st : SessionState) (p : Process) → lookup id (insert id st p.sessions) ≡ some st
updated_there id st p =
    lookup-insert id id st p.sessions
    ∙ ap (λ b. if b then some st else lookup id p.sessions) (eq_refl id)

cancelled_there :
    (id : String) (b : Bool) (st : SessionState) (p : Process)
    → (cancel_at b id st p).1 ≡ true
    → (st' : SessionState) × (lookup id (cancel_at b id st p).0.sessions ≡ some st')
      × (st'.cancelled ≡ true)
cancelled_there id true st p taken =
    (interrupt_turn st, updated_there id (interrupt_turn st) p, refl)
cancelled_there id false st p taken = cc

interrupted :
    (id : String) (p : Process)
    → (cancel id p).1 ≡ true
    → (st : SessionState) × (lookup id (cancel id p).0.sessions ≡ some st) × (st.cancelled ≡ true)
unfolding cancel
interrupted id p taken = elim (Option-cases (lookup id p.sessions)) [
  | inl gone ↦ let no : false ≡ true = rw (gone, cancel) at taken in cc
  | inr (st, held) ↦
      rw (held, cancel) (cancelled_there id st.turn_active st p (rw (held, cancel) at taken))
]

-- After an interrupt that is taken, the agent's updates for the session are dropped, before its
-- task has run and after that.
pub cancel-quiet :
    (id : String) (v w : Value) (answer : Answer) (p : Process)
    → (cancel id p).1 ≡ true
    → (session_update id v (cancel id p).0 ≡ [])
      × (session_update id w (run_turn id answer (cancel id p).0).0 ≡ [])
unfolding run_turn run_task
cancel-quiet id v w answer p taken =
    let (st, held, c) = interrupted id p taken in
    (
      dropped_update id v st (cancel id p).0 held c,
      rw (held, run_turn)
          (dropped_update id w (run_task answer st).0 _
            (updated_there id (run_task answer st).0 (cancel id p).0)
            (run_at-cancelled st.task answer st ∙ c)),
    )
