-- ===== src/Table/Bounds.antt =====
-- The shape of the session table, and its limit (blemees_agent/session.py).
use blemees_agent.Prelude.{
  if◌then◌else◌, Bool-cases, Option-cases, length, Dict, lookup, insert, erase, lookup-insert,
  lookup-erase, ◌+◌, ◌≤◌, ◌<◌, String, ◌≡◌, refl, sym, ◌∙◌, inl, inr, Bool, false, none, some, [],
  ◌∷◌, arith, ◌==◌, eq_iff,
}
use mathlib.Core.Path.{subst}
use blemees_agent.Errors.{ok}
use blemees_agent.Session.{Session}
use blemees_agent.Table.{SessionTable, register, remove}

-- No key stands twice.
abbrev pub Distinct : Dict Session → Type 0
Distinct [] = Unit
Distinct ((k, s) ∷ d) = (lookup k d ≡ none) × Distinct d

-- Each session stands under its own id.
abbrev pub Keyed : Dict Session → Type 0
Keyed [] = Unit
Keyed ((k, s) ∷ d) = (s.session_id ≡ k) × Keyed d

pub record IsValid (t : SessionTable) : Type 0 where
  pub distinct : Distinct t.sessions
  pub keyed : Keyed t.sessions
  pub bounded : length t.sessions ≤ t.max_concurrent

lookup-insert_absent :
    (k j : String) (s : Session) (d : Dict Session)
    → lookup j d ≡ none
    → (k == j) ≡ false
    → lookup j (insert k s d) ≡ none
lookup-insert_absent k j s d h ne = rw lookup-insert (rw ne h)

Distinct-insert :
    (k : String) (s : Session) (d : Dict Session) → Distinct d → Distinct (insert k s d)
unfolding insert lookup
Distinct-insert k s [] h = (refl, tt)
Distinct-insert k s ((j, w) ∷ d) h = elim (Bool-cases (j == k)) [
  | inl same ↦ rw same h
  | inr other ↦ rw other (
    lookup-insert_absent k j s d h.0 (ground (arith, eq_iff j k, eq_iff k j)),
    Distinct-insert k s d h.1,
  )
]

Keyed-insert :
    (k : String) (s : Session) (d : Dict Session)
    → s.session_id ≡ k
    → Keyed d
    → Keyed (insert k s d)
unfolding insert
Keyed-insert k s [] e h = (e, tt)
Keyed-insert k s ((j, w) ∷ d) e h = elim (Bool-cases (j == k)) [
  | inl same ↦ rw same (e ∙ sym ((eq_iff j k).0 same), h.1)
  | inr other ↦ rw other (h.0, Keyed-insert k s d e h.1)
]

length-insert_absent :
    (k : String) (s : Session) (d : Dict Session)
    → lookup k d ≡ none
    → length (insert k s d) ≡ length d + 1
unfolding insert lookup
length-insert_absent k s [] h = refl
length-insert_absent k s ((j, w) ∷ d) h = elim (Bool-cases (j == k)) [
  | inl same ↦ let bad : some w ≡ none = rw same at h in cc
  | inr other ↦ rw other (omega (arith, length-insert_absent k s d (rw other at h)))
]

length-insert_present :
    (k : String) (s v : Session) (d : Dict Session)
    → lookup k d ≡ some v
    → length (insert k s d) ≡ length d
unfolding insert lookup
length-insert_present k s v [] h = cc
length-insert_present k s v ((j, w) ∷ d) h = elim (Bool-cases (j == k)) [
  | inl same ↦ rw same
  | inr other ↦ rw other (omega (arith, length-insert_present k s v d (rw other at h)))
]

pub lookup-erase_absent :
    (k j : String) (d : Dict Session) → lookup j d ≡ none → lookup j (erase k d) ≡ none
lookup-erase_absent k j d h = rw lookup-erase (ground arith)

Distinct-erase : (k : String) (d : Dict Session) → Distinct d → Distinct (erase k d)
unfolding erase
Distinct-erase k [] h = tt
Distinct-erase k ((j, w) ∷ d) h = elim (Bool-cases (j == k)) [
  | inl same ↦ rw same (Distinct-erase k d h.1)
  | inr other ↦ rw other (lookup-erase_absent k j d h.0, Distinct-erase k d h.1)
]

Keyed-erase : (k : String) (d : Dict Session) → Keyed d → Keyed (erase k d)
unfolding erase
Keyed-erase k [] h = tt
Keyed-erase k ((j, w) ∷ d) h = elim (Bool-cases (j == k)) [
  | inl same ↦ rw same (Keyed-erase k d h.1)
  | inr other ↦ rw other (h.0, Keyed-erase k d h.1)
]

length-erase-le : (k : String) (d : Dict Session) → length (erase k d) ≤ length d
unfolding erase
length-erase-le k [] = omega arith
length-erase-le k ((j, w) ∷ d) = elim (Bool-cases (j == k)) [
  | inl same ↦ rw same (omega (arith, length-erase-le k d))
  | inr other ↦ rw other (omega (arith, length-erase-le k d))
]

-- A session is replaced by another state of itself.
pub update-IsValid :
    (t : SessionTable) (id : String) (s v : Session)
    → IsValid t
    → lookup id t.sessions ≡ some v
    → s.session_id ≡ id
    → IsValid (record t { sessions = insert id s t.sessions })
update-IsValid t id s v w held e = record {
  distinct = Distinct-insert id s t.sessions w.distinct;
  keyed = Keyed-insert id s t.sessions e w.keyed;
  bounded = omega (arith, length-insert_present id s v t.sessions held);
}

abbrev added : Session → SessionTable → SessionTable
added s t = record t { sessions = insert s.session_id s t.sessions }

-- What a registration that succeeds has tested.
register-ok :
    (s : Session) (t t' : SessionTable)
    → register s t ≡ ok t'
    → (lookup s.session_id t.sessions ≡ none)
      × (length t.sessions < t.max_concurrent)
      × (added s t ≡ t')
unfolding register
register-ok s t t' h = ground arith

added-IsValid :
    (s : Session) (t : SessionTable)
    → IsValid t
    → lookup s.session_id t.sessions ≡ none
    → length t.sessions < t.max_concurrent
    → IsValid (added s t)
added-IsValid s t w free room = record {
  distinct = Distinct-insert s.session_id s t.sessions w.distinct;
  keyed = Keyed-insert s.session_id s t.sessions refl w.keyed;
  bounded = omega (arith, length-insert_absent s.session_id s t.sessions free);
}

-- A registration that succeeds keeps the table valid, so never more sessions than
-- `max_concurrent`; the id was free, it then finds the session, and every other id finds what it
-- found before.
pub register-IsValid :
    (s : Session) (t t' : SessionTable)
    → IsValid t
    → register s t ≡ ok t'
    → IsValid t'
      × (lookup s.session_id t.sessions ≡ none)
      × ((j : String)
          → lookup j t'.sessions ≡ (if s.session_id == j then some s else lookup j t.sessions))
register-IsValid s t t' w h =
    let (free, room, e) = register-ok s t t' h in
    subst
      (λ x.
        IsValid x
        × (lookup s.session_id t.sessions ≡ none)
        × ((j : String)
            → lookup j x.sessions ≡ (if s.session_id == j then some s else lookup j t.sessions)))
      e (added-IsValid s t w free room, free, λ j. lookup-insert s.session_id j s t.sessions)

pub remove-IsValid :
    (id : String) (delete_file : Bool) (t : SessionTable)
    → IsValid t
    → IsValid (remove id delete_file t).0
unfolding remove
remove-IsValid id delete_file t w = elim (Option-cases (lookup id t.sessions)) [
  | inl gone ↦ rw (gone, remove) w
  | inr (s, held) ↦
      rw (held, remove)
        (record {
          distinct = Distinct-erase id t.sessions w.distinct;
          keyed = Keyed-erase id t.sessions w.keyed;
          bounded = omega (arith, length-erase-le id t.sessions);
        })
]
