-- ===== src/Session/Attach/Notices.antt =====
-- When `attach` of blemees_agent/session.py announces a gap.
use blemees_agent.Prelude.{
  ltb, ltb→lt, lt→ltb, ltb-false, ltb-false→le, Bool-cases, from_option, length, drop, head?,
  keep_if, All, All-map, ℕ, ◌+◌, ◌≤◌, ◌<◌, ◌≡◌, refl, ap, ◌∙◌, inl, inr, Bool, true, false, none,
  some, List, [], ◌∷◌, arith,
}
use blemees_agent.EventLog.{Frame, seq_of}
use blemees_agent.EventLog.Ring.{since, earliest_seq}
use blemees_agent.Session.{Session}
use blemees_agent.Session.Events.Sequence.{IsSequenced}
use blemees_agent.Session.Attach.{Gap, send_all, after_replay, ring_gap, empty_gap, gap_of}
use blemees_agent.Session.Attach.Replay.{held-All}

keep_if_none : (p : Frame → Bool) (fs : List Frame) → All (λ f. p f ≡ false) fs → keep_if p fs ≡ []
keep_if_none p [] a = refl
keep_if_none p (x ∷ fs) a = rw (a.0, keep_if_none p fs a.1)

-- Nothing is newer than the session's number.
since-seq : {s : Session} {h : List Frame} → IsSequenced s h → since s.ring s.seq ≡ []
unfolding since
since-seq {s} q = keep_if_none _ s.ring.buf (
    All-map (λ f. seq_of f ≤ s.seq) _ s.ring.buf (λ f le. ltb-false s.seq (seq_of f) le)
      (held-All _ q q.bounded))

no_ring_gap :
    {s : Session} {h : List Frame} → IsSequenced s h → ring_gap (earliest_seq s.ring) s.seq ≡ none
unfolding ring_gap earliest_seq
no_ring_gap {s} q = go s.ring.buf (held-All _ q q.bounded)
  where
    go :
        (fs : List Frame)
        → All (λ f. seq_of f ≤ s.seq) fs
        → ring_gap (elim (head? fs) [ none ↦ none | some f ↦ f.seq ]) s.seq ≡ none
    go [] a = refl
    go (x ∷ fs) a = ground (arith, a.0)

-- After the notice of a gap was sent, behind frames that the writer all took, a connection that
-- has seen every number up to the one before the notice's is told of a gap at just that number.
pub gap_of-notice :
    (takes : Frame → Bool) (s : Session) (h : List Frame) (seen : ℕ) (gap : Gap)
    → IsSequenced s h
    → (send_all takes 0 (since s.ring seen)).1 ≡ true
    → gap_of (after_replay takes s seen (some gap)) s.seq
      ≡ some (record { first_available = s.seq + 3; from = s.seq + 1; to = s.seq + 1 })
unfolding after_replay gap_of empty_gap
gap_of-notice takes s h seen gap q sent =
    rw sent (rw (no_ring_gap q, since-seq q, lt→ltb s.seq (s.seq + 1) (omega arith)) (ground arith))

-- The numbers run on from `lo` with none left out.
abbrev pub RunsOn : ℕ → List Frame → Type 0
RunsOn lo [] = Unit
RunsOn lo (f ∷ fs) = (f.seq ≡ some (lo + 1)) × RunsOn (lo + 1) fs

later_kept :
    (seen lo : ℕ) (fs : List Frame)
    → RunsOn lo fs
    → lo ≤ seen
    → seen < lo + length fs
    → (f : Frame) × (rest : List Frame) × (keep_if (λ x. ltb seen (seq_of x)) fs ≡ f ∷ rest)
later_kept seen lo [] r le lt = absurd (omega arith)
later_kept seen lo (x ∷ fs) r le lt = elim (Bool-cases (ltb seen (seq_of x))) [
  | inl late ↦ (x, keep_if (λ z. ltb seen (seq_of z)) fs, rw late)
  | inr early ↦
      let n : seq_of x ≡ lo + 1 = ap (from_option 0) r.0 in
      rw early (
        later_kept seen (lo + 1) fs r.1 (omega (arith, ltb-false→le seen (seq_of x) early))
          (omega arith))
]

first_number :
    (seen lo : ℕ) (fs : List Frame)
    → RunsOn lo fs
    → lo ≤ seen
    → ring_gap (elim (head? fs) [ none ↦ none | some f ↦ f.seq ]) seen ≡ none
unfolding ring_gap
first_number seen lo [] r le = refl
first_number seen lo (x ∷ fs) r le = rw (r.0, ltb-false (seen + 1) (lo + 1) (omega arith))

all_held :
    {s : Session} {h : List Frame} → IsSequenced s h → length h ≤ s.ring.capacity → s.ring.buf ≡ h
all_held {s} {h} q fits = q.window.last ∙ ap (λ k. drop k h) {y = 0} (omega arith)

up_to_date : (fs : List Frame) (seq seen : ℕ) → ltb seen seq ≡ false → empty_gap fs seq seen ≡ none
unfolding empty_gap
up_to_date [] seq seen h = rw h
up_to_date (f ∷ fs) seq seen h = refl

-- While the ring holds the whole stream and no number was passed over, no gap is announced.
pub gap_of-none :
    (s : Session) (h : List Frame) (seen : ℕ)
    → IsSequenced s h
    → RunsOn 0 h
    → length h ≡ s.seq
    → length h ≤ s.ring.capacity
    → gap_of s seen ≡ none
unfolding gap_of earliest_seq since
gap_of-none s h seen q r all fits =
    rw (all_held q fits, first_number seen 0 h r (omega arith))
      (elim (Bool-cases (ltb seen s.seq)) [
        | inl behind ↦
            let (f, rest, e) =
              later_kept seen 0 h r (omega arith) (omega (arith, ltb→lt seen s.seq behind)) in
            rw e (unfold empty_gap in refl)
        | inr ahead ↦ up_to_date (keep_if _ h) s.seq seen ahead
      ])
