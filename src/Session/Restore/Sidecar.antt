-- ===== src/Session/Restore/Sidecar.antt =====
-- The usage sidecar as a round trip (blemees_agent/session.py).
use blemees_agent.Prelude.{
  Bool-cases, or_else, Dict, lookup, insert, lookup-insert, ℕ, String, ◌≡◌, refl, sym, ap, ◌∙◌, inl,
  inr, Option, none, some, [], ◌∷◌, ◌==◌, eq_iff,
}
use blemees_agent.Prelude.Int.{ℤ, pos}
use blemees_agent.Value.{text, int, object, as_text}
use blemees_agent.Protocol.{get}
use blemees_agent.Registry.{to_fields}
use blemees_agent.Registry.Restart.{entries-to_fields}
use blemees_agent.Session.{Session}
use blemees_agent.Session.Restore.{
  as_count, field_as, ints, optional, assign_totals, save_usage_sidecar, load_usage_sidecar,
}

-- No name stands twice, as in any dict.
abbrev pub Distinct : Dict ℤ → Type 0
Distinct [] = Unit
Distinct ((k, n) ∷ d) = (lookup k d ≡ none) × Distinct d

-- What was written at a key is read there.
read_count : (o : Option ℕ) → field_as as_count "x" (("x", optional (λ n. int (pos n)) o) ∷ []) ≡ o
unfolding get lookup
read_count none = refl
read_count (some n) = refl

read_text : (o : Option String) → field_as as_text "x" (("x", optional text o) ∷ []) ≡ o
unfolding get lookup
read_text none = refl
read_text (some s) = refl

lookup-assign_totals :
    (d total : Dict ℤ) (j : String)
    → Distinct d
    → lookup j (assign_totals (ints d) total) ≡ or_else (lookup j d) (lookup j total)
unfolding assign_totals lookup
lookup-assign_totals [] total j h = refl
lookup-assign_totals ((k, n) ∷ d) total j h =
    lookup-assign_totals d (insert k n total) j h.1
    ∙ ap (or_else (lookup j d)) (lookup-insert k j n total)
    ∙ (elim (Bool-cases (k == j)) [
      | inl same ↦
          let gone : lookup j d ≡ none = ap (λ i. lookup i d) (sym ((eq_iff k j).0 same)) ∙ h.0 in
          rw (same, gone) refl
      | inr other ↦ rw other refl
    ])

-- What the file of session `s` gives to session `t`.
pub record IsRestored (s t u : Session) : Type 0 where
  pub turns : u.turns ≡ s.turns
  pub last_turn_at_ms : u.last_turn_at_ms ≡ or_else s.last_turn_at_ms t.last_turn_at_ms
  pub last_turn_usage : u.last_turn_usage ≡ s.last_turn_usage
  pub last_model : u.last_model ≡ or_else s.last_model t.last_model
  pub native_session_id : u.native_session_id ≡ or_else s.native_session_id t.native_session_id
  pub cumulative_usage :
      (j : String)
      → lookup j u.cumulative_usage
        ≡ or_else (lookup j s.cumulative_usage) (lookup j t.cumulative_usage)

-- The usage sidecar that a session wrote gives a later session of the id its count of turns, the
-- usage of its last turn and each of its totals, and, where it had them, the time of the last
-- turn, the model and the agent's own id.
pub load-save_usage_sidecar :
    (s t : Session)
    → Distinct s.cumulative_usage
    → IsRestored s t (load_usage_sidecar (some (object (to_fields (save_usage_sidecar s)))) t)
unfolding load_usage_sidecar save_usage_sidecar get lookup
load-save_usage_sidecar s t d = record {
  turns = refl;
  last_turn_at_ms = ap (λ o. or_else o t.last_turn_at_ms) (read_count s.last_turn_at_ms);
  last_turn_usage = entries-to_fields s.last_turn_usage;
  last_model = ap (λ o. or_else o t.last_model) (read_text s.last_model);
  native_session_id = ap (λ o. or_else o t.native_session_id) (read_text s.native_session_id);
  cumulative_usage = λ j.
      ap (λ x. lookup j (assign_totals x t.cumulative_usage))
        (entries-to_fields (ints s.cumulative_usage))
      ∙ lookup-assign_totals s.cumulative_usage t.cumulative_usage j d;
}
