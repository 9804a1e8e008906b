-- ===== src/Session/Permission/Policy.antt =====
-- The decisions that blemees_agent/session.py takes without asking the owner.
use blemees_agent.Prelude.{
  Bool-cases, Option-cases, or_else, from_option, codes, find_first, All, In, ℕ, String, ◌≡◌, refl,
  sym, ap, ◌∙◌, ◌⊎◌, inl, inr, Bool, true, false, Option, none, some, List, [], ◌∷◌, arith,
}
use blemees_agent.Value.{Value}
use blemees_agent.EventLog.{PermissionOption}
use blemees_agent.Session.{Session, Kind, allow, deny, Decision, selected, cancelled, Env}
use blemees_agent.Session.Permission.{
  has_prefix, is_of_kind, auto_decision, kind_at, policy_decision, answered, ask,
}

find_first_found :
    {A : Type 0} (p : A → Bool) (xs : List A) (a : A)
    → find_first p xs ≡ some a
    → In a xs × (p a ≡ true)
find_first_found p [] a h = cc
find_first_found p (x ∷ xs) a h = elim (Bool-cases (p x)) [
  | inl hit ↦ let e : x ≡ a = ap (from_option x) (rw hit at h) in (inl e, sym (ap p e) ∙ hit)
  | inr miss ↦ let (i, t) = find_first_found p xs a (rw miss at h) in (inr i, t)
]

find_first_missed :
    {A : Type 0} (p : A → Bool) (xs : List A) → find_first p xs ≡ none → All (λ a. p a ≡ false) xs
find_first_missed p [] h = tt
find_first_missed p (x ∷ xs) h = elim (Bool-cases (p x)) [
  | inl hit ↦ let bad : some x ≡ none = rw hit at h in cc
  | inr miss ↦ (miss, find_first_missed p xs (rw miss at h))
]

-- No text begins with both "allow" and "reject".
kinds_apart : (o : PermissionOption) → is_of_kind deny o ≡ true → is_of_kind allow o ≡ false
kinds_apart o h = go (codes o.kind) h
  where
    go :
        (cs : List ℕ)
        → has_prefix cs (codes "reject") ≡ true
        → has_prefix cs (codes "allow") ≡ false
    go [] h = refl
    go (c ∷ cs) h = ground arith

-- What an automatic decision selects is one of the options offered, and of the kind that was
-- asked for; it selects nothing exactly where no option is of that kind.
pub auto_decision_lem :
    (options : List PermissionOption) (k : Kind)
    → ((o : PermissionOption) × (auto_decision options k ≡ selected o.option_id)
        × In o options
        × (is_of_kind k o ≡ true))
      ⊎ ((auto_decision options k ≡ cancelled none) × All (λ o. is_of_kind k o ≡ false) options)
unfolding auto_decision
auto_decision_lem options k = elim (Option-cases (find_first (is_of_kind k) options)) [
  | inl missed ↦ inr (rw (missed, auto_decision), find_first_missed _ options missed)
  | inr (o, found) ↦
      let (i, t) = find_first_found (is_of_kind k) options o found in
      inl (o, rw (found, auto_decision), i, t)
]

policy_decided :
    (s : Session) (options : List PermissionOption) (k : Kind)
    → or_else s.remembered_permission (kind_at "mode" s.permission_policy) ≡ some k
    → policy_decision s options ≡ some (auto_decision options k)
unfolding policy_decision
policy_decided s options k h = rw (h, policy_decision)

-- Where the remembered decision, or the policy's mode where none is remembered, is to deny, the
-- request is answered without a frame and without a change to the session: it is cancelled, or
-- an offered option is selected whose kind does not begin with "allow".
pub ask_denied :
    (env : Env) (id : String) (title : Option String) (options : List PermissionOption)
    (tool_call : Value) (s : Session)
    → or_else s.remembered_permission (kind_at "mode" s.permission_policy) ≡ some deny
    → (d : Decision) × (ask env id title options tool_call s ≡ (s, [], answered d))
      × ((d ≡ cancelled none)
          ⊎ ((o : PermissionOption) × (d ≡ selected o.option_id)
              × In o options
              × (is_of_kind allow o ≡ false)))
unfolding ask
ask_denied env id title options tool_call s denied = (
  auto_decision options deny,
  rw (policy_decided s options deny denied, ask),
  elim (auto_decision_lem options deny) [
    | inl (o, e, i, k) ↦ inr (o, e, i, kinds_apart o k)
    | inr (e, none_fits) ↦ inl e
  ],
)
