-- ===== src/Session/Attach.antt =====
-- Attaching, watching and detaching, of blemees_agent/session.py. A writer that raises while frames
-- are replayed ends the method there: the result is then `none`.
pub mod Replay
pub mod Order
pub mod Notices
use blemees_agent.Prelude.{
  ltb, nat_eq, if◌then◌else◌, or_else, length, keep_if, any_of, ℕ, ◌+◌, ◌-◌, Bool, true, false, not,
  Option, none, some, List, [], ◌∷◌, ◌++◌,
}
use blemees_agent.EventLog.{Frame, replay_gap}
use blemees_agent.EventLog.Ring.{since, earliest_seq}
use blemees_agent.Session.{Session, Effect, send, Env, Out, ◌▸◌}
use blemees_agent.Session.Events.{clear_attention}

-- `{replayed, gap_from, gap_to}`
pub record Summary : Type 0 where
  pub replayed : ℕ
  pub gap_from : ℕ
  pub gap_to : ℕ

abbrev pub no_summary : Summary
no_summary = record { replayed = 0; gap_from = 0; gap_to = 0 }

-- A gap notice: the first number that is available, and the numbers that are gone.
pub record Gap : Type 0 where
  pub first_available : ℕ
  pub from : ℕ
  pub to : ℕ

-- The frames that the writer took, and whether it took them all.
unfoldable pub send_all : (Frame → Bool) → ℕ → List Frame → List Effect × Bool
send_all takes c [] = ([], true)
send_all takes c (f ∷ fs) =
    let rest = send_all takes c fs in if takes f then (send c f ∷ rest.0, rest.1) else ([], false)

-- `earliest is not None and earliest > last_seen_seq + 1`
unfoldable pub ring_gap : Option ℕ → ℕ → Option Gap
ring_gap none seen = none
ring_gap (some e) seen =
    if ltb (seen + 1) e
    then some (record { first_available = e; from = seen + 1; to = e - 1 })
    else none

-- `elif not to_replay and self.seq > last_seen_seq`; the notice takes the next number.
unfoldable pub empty_gap : List Frame → ℕ → ℕ → Option Gap
empty_gap [] seq seen =
    if ltb seen seq
    then some (record { first_available = seq + 1 + 1; from = seen + 1; to = seq })
    else none
empty_gap (f ∷ fs) seq seen = none

unfoldable pub gap_of : Session → ℕ → Option Gap
gap_of s seen =
    or_else (ring_gap (earliest_seq s.ring) seen) (empty_gap (since s.ring seen) s.seq seen)

-- The notice has the next number and goes to the writer alone: no ring, no log.
abbrev pub gap_frame : Session → ℕ → Gap → Frame
gap_frame s seen gap = record {
  session_id = some s.session_id;
  seq = some (s.seq + 1);
  event = replay_gap seen gap.first_available;
}

abbrev pub bump : Session → Session
bump s = record s { seq = s.seq + 1 }

abbrev pub summary_of : ℕ → Option Gap → Summary
summary_of n none = record { replayed = n; gap_from = 0; gap_to = 0 }
summary_of n (some gap) = record { replayed = n; gap_from = gap.from; gap_to = gap.to }

-- What goes out to a connection that saw `seen`: the frames, then the notice of a gap.
unfoldable pub replay_frames : Session → ℕ → Option Gap → List Frame
unfolding since
replay_frames s seen none = since s.ring seen
replay_frames s seen (some gap) = since s.ring seen ++ gap_frame s seen gap ∷ []

-- The session after the notice: its number is taken also if the writer then raises, but not if
-- the writer raised before.
unfoldable pub after_replay : (Frame → Bool) → Session → ℕ → Option Gap → Session
after_replay takes s seen none = s
after_replay takes s seen (some gap) =
    if (send_all takes 0 (since s.ring seen)).1 then bump s else s

abbrev pub Attached : Type 0
Attached = Session × List Effect × Option Summary

-- The end of `attach`: attention is cleared after any replay.
abbrev pub clear_and_return : Env → Session → List Effect → Summary → Attached
clear_and_return env s es summary =
    ((clear_attention env s).0, es ++ (clear_attention env s).1, some summary)

-- The replay to connection `c`, and what follows if its writer took everything.
unfoldable pub replay_to :
    Env → ℕ → ℕ → Option Gap → (Session → List Effect → Summary → Attached) → Session → Attached
replay_to env c seen gap next s =
    let out = send_all (env.accepts c) c (replay_frames s seen gap) in
    let t = after_replay (env.accepts c) s seen gap in
    if out.1 then next t out.0 (summary_of (length (since s.ring seen)) gap) else (t, out.0, none)

abbrev pub take_over : ℕ → Session → Session
take_over c s = record s { connection_id = some c; detached_at = none; writer = some c }

unfoldable pub attach : Env → ℕ → Option ℕ → Session → Attached
attach env c none s = clear_and_return env (take_over c s) [] no_summary
attach env c (some seen) s =
    replay_to env c seen (gap_of (take_over c s) seen) (clear_and_return env) (take_over c s)

-- `detach_writer`
unfoldable pub detach_writer : ℕ → Session → Session
detach_writer now s = record s { writer = none; connection_id = none; detached_at = some now }

-- `mark_finishing`
unfoldable pub mark_finishing : Session → Session
mark_finishing s = record s { finishing = true }

-- A dict's `[c] = writer`: a connection that watches already keeps its place.
abbrev pub add_id : ℕ → List ℕ → List ℕ
add_id c cs = if any_of (λ d. nat_eq d c) cs then cs else cs ++ c ∷ []

abbrev pub watch_from : ℕ → Session → Session
watch_from c s = record s { watchers = add_id c s.watchers }

unfoldable pub add_watcher : Env → ℕ → Option ℕ → Session → Attached
add_watcher env c none s = (watch_from c s, [], some no_summary)
add_watcher env c (some seen) s =
    replay_to env c seen (ring_gap (earliest_seq s.ring) seen)
      (λ t es summary. (t, es, some summary)) (watch_from c s)

unfoldable pub remove_watcher : ℕ → Session → Session × Bool
remove_watcher c s = (
  record s { watchers = keep_if (λ d. not (nat_eq d c)) s.watchers },
  any_of (λ d. nat_eq d c) s.watchers,
)
