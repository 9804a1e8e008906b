-- ===== src/Tests/Sessions.antt =====
-- A session of a ring of two that has published three frames (blemees_agent/session.py).
use blemees_agent.Prelude.{
  codes, length, ℕ, ◌+◌, ◌<◌, lookup, take_last, In, lookup, values, ◌≡◌, refl, ◌⊎◌, inl, true,
  none, some, List, [], ◌∷◌, ◌++◌, arith,
}
use blemees_agent.EventLog.{Frame, stderr, error, replay_gap}
use blemees_agent.EventLog.Ring.{since, earliest_seq}
use blemees_agent.EventLog.Ring.Window.{init-IsWindow, buf-extend, Ascends}
use blemees_agent.EventLog.Ring.{init, extend}
use blemees_agent.Notify.{NotifyService, no_service, queue}
use mathlib.Core.List.{Perm}
use blemees_agent.Notify.Queue.{IsOldestFirst, queue-IsOldestFirst}
use blemees_agent.Session.{Session, Env, new_session}
use blemees_agent.Session.Title.{record_user_message, text_of, words, join_words, capped, is_white}
use blemees_agent.Session.Title.Bounds.{IsTitle, record_user_message-IsTitle}
use blemees_agent.Protocol.{get}
use blemees_agent.Value.{text}
use blemees_agent.Session.Events.{bare, stamp, publish, on_event}
use blemees_agent.Session.Events.Sequence.{IsSequenced, publish-IsSequenced, on_event-Continued}
use blemees_agent.Session.Events.Attention.{InSync, apply_effects, InSync-on_event}
use blemees_agent.Session.Attach.{attach, gap_of, replay_frames, after_replay, send_all}
use blemees_agent.Session.Attach.Replay.{attach-covers}
use blemees_agent.Session.Attach.Order.{replay-Ascends, IsRefused, IsAttached, attach-IsSequenced}
use blemees_agent.Session.Attach.Notices.{gap_of-notice, gap_of-none}
use blemees_agent.Session.{send}

abbrev world : Env
world = record { accepts = λ c f. true; disk_ok = λ f. true; now_ms = 7 }

abbrev fresh_session : Session
fresh_session = new_session "s-1" (some "/work") 2 5

abbrev line : Frame
line = bare (stderr "warming up")

abbrev one : Session
one = (publish world line fresh_session).0

abbrev two : Session
two = (publish world line one).0

abbrev three : Session
three = (publish world line two).0

abbrev history : List Frame
history = (([] ++ stamp fresh_session line ∷ []) ++ stamp one line ∷ []) ++ stamp two line ∷ []

fresh-IsSequenced : IsSequenced fresh_session []
unfolding new_session
fresh-IsSequenced = record { window = init-IsWindow 2; ascends = tt; bounded = tt; stamped = tt }

three-IsSequenced : IsSequenced three history
three-IsSequenced =
    publish-IsSequenced world line
      (publish-IsSequenced world line (publish-IsSequenced world line fresh-IsSequenced))

-- The first frame has left the ring, and lies in the gap that is announced.
attach-covers_example :
    In (send 4 (stamp fresh_session line)) (attach world 4 (some 0) three).1
    ⊎ ((n : ℕ) × (earliest_seq three.ring ≡ some n)
        × (1 < n)
        × In
            (send 4 (record {
              session_id = some three.session_id;
              seq = some (three.seq + 1);
              event = replay_gap 0 n;
            }))
            (attach world 4 (some 0) three).1)
unfolding stamp new_session
attach-covers_example =
    attach-covers world 4 0 three history (stamp fresh_session line) three-IsSequenced (λ x. refl)
      (inl refl) (omega arith)

on_event-Continued_example :
    (new : List Frame) × IsSequenced
      (on_event world line three).0
      (history ++ stamp three line ∷ new)
    × ((on_event world line three).0.seq ≡ three.seq + 1 + length new)
on_event-Continued_example = on_event-Continued world line three-IsSequenced

attach-IsSequenced_example :
    IsRefused world 4 (attach world 4 (some 0) three).0 history
    ⊎ IsAttached world 4 (some 0) three (attach world 4 (some 0) three).0 history
attach-IsSequenced_example = attach-IsSequenced world 4 (some 0) three-IsSequenced

replay-Ascends_example : Ascends 0 (replay_frames three 0 (gap_of three 0))
replay-Ascends_example = replay-Ascends 0 (gap_of three 0) three-IsSequenced (omega arith)

gap_of-notice_example :
    gap_of
      (after_replay (λ f. true) three 0 (some (record { first_available = 2; from = 1; to = 1 })))
      3
    ≡ some (record { first_available = 6; from = 4; to = 4 })
unfolding publish gap_of new_session stamp send_all since lookup
gap_of-notice_example = gap_of-notice (λ f. true) three history 0 _ three-IsSequenced refl

gap_of-none_example : gap_of two 0 ≡ none
unfolding publish gap_of new_session stamp send_all since lookup
gap_of-none_example =
    gap_of-none two _ 0
      (publish-IsSequenced world line (publish-IsSequenced world line fresh-IsSequenced))
      (refl, (refl, tt)) refl (omega arith)

abbrev notifying : Session
notifying = record three { has_notify = true }

abbrev refused : Frame
refused = bare (error "auth_required" none)

abbrev flagged_service : NotifyService
flagged_service = apply_effects 9 (on_event world refused notifying).1 no_service

InSync-on_event_example : InSync (on_event world refused notifying).0 flagged_service
unfolding publish gap_of new_session stamp send_all since lookup
InSync-on_event_example =
    InSync-on_event 9 world refused notifying no_service
      (record { notified = refl; flagged = refl })

buf-extend_example :
    ((extend (init 2) history).capacity ≡ 2) × ((extend (init 2) history).buf ≡ take_last 2 history)
buf-extend_example = buf-extend 2 history

queue-IsOldestFirst_example :
    IsOldestFirst (queue flagged_service)
    × Perm (queue flagged_service) (values flagged_service.outstanding)
queue-IsOldestFirst_example = queue-IsOldestFirst flagged_service

-- "fix", a line feed, "it"
record_user_message-IsTitle_example :
    (fresh_session.title ≡ some (codes "fix it")) ⊎ IsTitle (codes "fix it")
unfolding record_user_message text_of get lookup words join_words capped is_white new_session
record_user_message-IsTitle_example =
    record_user_message-IsTitle (("content", text "fix\n it ") ∷ []) fresh_session (codes "fix it")
      refl
