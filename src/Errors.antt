-- ===== src/Errors.antt =====
-- blemees_agent/errors.py: the error codes, the exceptions that carry them, and the results of
-- functions that may raise. A protocol error's text is its `Reason`.
use blemees_agent.Prelude.{
  ◌⊎◌, inl, inr, if◌then◌else◌, ℕ, String, ◌≡◌, refl, Bool, true, false, Option, List,
}

pub data ErrorCode : Type 0 where
  protocol_mismatch invalid_message unknown_message unknown_backend : ErrorCode
  profile_unknown profile_exists profile_protected profile_in_use : ErrorCode
  agent_unavailable view_only unsafe_flag : ErrorCode
  session_unknown session_exists session_busy : ErrorCode
  spawn_failed backend_crashed auth_failed auth_required : ErrorCode
  oversize_message slow_consumer daemon_shutdown internal : ErrorCode

-- `FATAL_CODES`
unfoldable pub is_fatal_code : ErrorCode → Bool
is_fatal_code protocol_mismatch = true
is_fatal_code oversize_message = true
is_fatal_code slow_consumer = true
is_fatal_code daemon_shutdown = true
is_fatal_code _ = false

-- What a `ProtocolError` of protocol.py says.
pub data Reason : Type 0 where
  invalid_utf8 empty_frame invalid_json not_an_object missing_type : Reason
  unexpected_field : String → Reason
  -- "'name' must be …"
  bad_field : String → Reason
  -- "… requires …"
  missing_field : String → Reason
  -- the code points of the session id that is shown
  invalid_session_id : List ℕ → Reason
  invalid_name : String → Reason

pub data Failure : Type 0 where
  protocol_error : Reason → Failure
  oversize : ℕ → Failure
  unsafe_flag_error : String → Failure
  unknown_backend_error : String → Failure
  profile_unknown_error : String → Failure
  profile_exists_error : String → Failure
  profile_protected_error : String → Failure
  agent_unavailable_error : String → Option String → Failure
  session_unknown_error : String → Failure
  session_exists_error : String → Failure
  session_busy_error : String → Failure
  spawn_failed_error : String → Failure
  auth_required_error : String → Failure
  -- Python's own TypeError, which is no `BlemeesError` and is answered with `internal`
  type_error : Failure
  -- `acp.RequestError`: the agent refused a call. It is no `BlemeesError` either.
  request_error : String → Failure

-- The `code` that each exception's `__init__` passes on.
unfoldable pub code_of : Failure → ErrorCode
code_of (protocol_error _) = invalid_message
code_of (oversize _) = oversize_message
code_of (unsafe_flag_error _) = unsafe_flag
code_of (unknown_backend_error _) = unknown_backend
code_of (profile_unknown_error _) = profile_unknown
code_of (profile_exists_error _) = profile_exists
code_of (profile_protected_error _) = profile_protected
code_of (agent_unavailable_error _ _) = agent_unavailable
code_of (session_unknown_error _) = session_unknown
code_of (session_exists_error _) = session_exists
code_of (session_busy_error _) = session_busy
code_of (spawn_failed_error _) = spawn_failed
code_of (auth_required_error _) = auth_required
code_of type_error = internal
code_of (request_error _) = internal

-- `BlemeesError.fatal`
unfoldable pub fatal : Failure → Bool
unfolding is_fatal_code code_of
fatal e = is_fatal_code (code_of e)

-- A call that raised, or that came back with a value.
pub data Result {ℓ} (V : Type ℓ) : Type ℓ where
  err : Failure → Result V
  ok : V → Result V

-- To split on a call and keep the equation.
pub Result-cases {ℓ} :
    {V : Type ℓ} (r : Result V) → ((e : Failure) × (r ≡ err e)) ⊎ ((v : V) × (r ≡ ok v))
Result-cases (err e) = inl (e, refl)
Result-cases (ok v) = inr (v, refl)

-- `if not passes: raise failure`
abbrev pub guard : Bool → Failure → Result (Unit {0})
guard passes failure = if passes then ok tt else err failure

infixl 10 ◌>>=◌ ◌>>◌
abbrev pub ◌>>=◌ {ℓ κ} : {V : Type ℓ} {W : Type κ} → Result V → (V → Result W) → Result W
err failure >>= next = err failure
ok value >>= next = next value

abbrev pub ◌>>◌ {κ} : {W : Type κ} → Result (Unit {0}) → Result W → Result W
check >> rest = check >>= λ done. rest

-- A chain that came back did so at each step.
pub >>=-eq-ok {ℓ κ} :
    {V : Type ℓ} {W : Type κ} (call : Result V) (next : V → Result W) {w : W}
    → (call >>= next) ≡ ok w
    → (v : V) × (call ≡ ok v) × (next v ≡ ok w)
>>=-eq-ok (err failure) next h = cc
>>=-eq-ok (ok v) next h = (v, refl, h)

pub ok_injective {ℓ} : {A : Type ℓ} (a b : A) → ok a ≡ ok b → a ≡ b
ok_injective a b h = cc
