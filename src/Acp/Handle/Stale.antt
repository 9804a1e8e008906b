-- ===== src/Acp/Handle/Stale.antt =====
-- Handles that outlive their session (blemees_agent/backends/acp.py).
use blemees_agent.Prelude.{
  if◌then◌else◌, Option-cases, is_some, Dict, lookup, lookup-erase, String, ◌≡◌, refl, sym, ap, ◌∙◌,
  inl, inr, Bool, true, false, not, ◌&&◌, none, some, List, ◌==◌, eq_refl,
}
use mathlib.Core.Path.{subst}
use blemees_agent.Value.{Value}
use blemees_agent.Errors.{Result, ok, err, spawn_failed_error}
use blemees_agent.Acp.{TextBlock, to_content_blocks}
use blemees_agent.Acp.Process.{
  Process, initialized, ensure_started, start_unless, launch, is_turn_active,
}
use blemees_agent.Acp.Turns.{prompt, end_session, exits, watch_exit, exit_at}
use blemees_agent.Acp.Handle.{
  Handle, active_as, send_as, close_as, running, turn_active, send_user_turn, close_handle,
}

abbrev uninitialised : Result (Unit {0})
uninitialised = err (spawn_failed_error "ACP session not initialised")

-- A turn for an id that the process does not know.
send_unknown :
    (message : Dict Value) (blocks : List TextBlock) (id : String) (p : Process)
    → to_content_blocks message ≡ ok blocks
    → lookup id p.sessions ≡ none
    → send_as (some id) message p ≡ (p, uninitialised)
unfolding send_as prompt
send_unknown message blocks id p good gone = rw (good, send_as) (rw (gone, prompt) refl)

and_false : (b : Bool) → (b && false) ≡ false
and_false true = refl
and_false false = refl

inactive_unknown :
    (id : String) (p : Process) → lookup id p.sessions ≡ none → active_as (some id) p ≡ false
unfolding active_as is_turn_active
inactive_unknown id p gone =
    let e : is_turn_active id p ≡ false = rw (gone, is_turn_active) refl in
    ap (λ b. not (id == "") && b) e ∙ and_false (not (id == ""))

ended :
    (id : String) (p : Process)
    → (lookup id (end_session id p).0.sessions ≡ none) × ((end_session id p).0.running ≡ p.running)
unfolding end_session
ended id p = elim (Option-cases (lookup id p.sessions)) [
  | inl gone ↦ rw (gone, end_session) (gone, refl)
  | inr (st, held) ↦
      rw (held, end_session)
        (
          lookup-erase id id p.sessions
              ∙ ap (λ b. if b then none else lookup id p.sessions) (eq_refl id),
          refl,
        )
]

closed_as :
    (message : Dict Value) (blocks : List TextBlock) (id : String) (p : Process)
    → p.running ≡ true
    → to_content_blocks message ≡ ok blocks
    → (((close_as (some id) p).0.running && true) ≡ true)
      × (active_as (some id) (close_as (some id) p).0 ≡ false)
      × ((send_as (some id) message (close_as (some id) p).0).1 ≡ uninitialised)
unfolding close_as
closed_as message blocks id p alive good =
    let (gone, same) = ended id p in
    (
      ap (λ b. b && true) (same ∙ alive),
      inactive_unknown id _ gone,
      ap (λ r. r.1) (send_unknown message blocks id _ good gone),
    )

-- A handle that was closed still says that it runs, while the process that it shared does; but
-- it has no turn, and every well-formed turn is refused as not initialised.
pub close_handle-stale :
    (message : Dict Value) (blocks : List TextBlock) (id : String) (h : Handle) (p : Process)
    → h.native_session_id ≡ some id
    → p.running ≡ true
    → to_content_blocks message ≡ ok blocks
    → (running h (close_handle h p).0 ≡ true)
      × (turn_active h (close_handle h p).0 ≡ false)
      × ((send_user_turn message h (close_handle h p).0).1
          ≡ err (spawn_failed_error "ACP session not initialised"))
unfolding running turn_active send_user_turn close_handle
close_handle-stale message blocks id h p there alive good =
    subst
      (λ o.
        (((close_as o p).0.running && is_some o) ≡ true)
        × (active_as o (close_as o p).0 ≡ false)
        × ((send_as o message (close_as o p).0).1 ≡ uninitialised))
      (sym there) (closed_as message blocks id p alive good)

-- The state of a process that crashed, and of the one that took its place.
abbrev pub crashed : Process → Process
crashed p = (watch_exit p.generation (exits p)).0

abbrev pub restarted : Bool → Process → Process
restarted load p = (ensure_started (initialized load) (crashed p)).0

exit_at-running : (b : Bool) (p : Process) → (exit_at b (exits p)).0.running ≡ false
exit_at-running true p = refl
exit_at-running false p = refl

start-fresh :
    (b load : Bool) (id : String) (q : Process)
    → b ≡ false
    → ((start_unless b (initialized load) q).0.running ≡ true)
      × (lookup id (start_unless b (initialized load) q).0.sessions ≡ none)
unfolding launch lookup
start-fresh true load id q e = cc
start-fresh false load id q e = (refl, refl)

-- After a crash, once the shared process was started again for any one of its sessions, a handle
-- of before the crash says that it runs, and every well-formed turn through it is refused as not
-- initialised. Only between the crash and the restart it says that it does not run.
pub watch_exit-stale :
    (message : Dict Value) (blocks : List TextBlock) (id : String) (h : Handle) (p : Process)
    (load : Bool)
    → h.native_session_id ≡ some id
    → to_content_blocks message ≡ ok blocks
    → (running h (crashed p) ≡ false)
      × (running h (restarted load p) ≡ true)
      × ((send_user_turn message h (restarted load p)).1
          ≡ err (spawn_failed_error "ACP session not initialised"))
unfolding running send_user_turn watch_exit ensure_started
watch_exit-stale message blocks id h p load there good =
    let down : (crashed p).running ≡ false = exit_at-running _ p in
    let (up, gone) = start-fresh (crashed p).running load id (crashed p) down in
    (
      ap (λ b. b && is_some h.native_session_id) down,
      ap (λ b. b && is_some h.native_session_id) up ∙ ap is_some there,
      ap (λ o. (send_as o message (restarted load p)).1) there
          ∙ ap (λ r. r.1) (send_unknown message blocks id (restarted load p) good gone),
    )
