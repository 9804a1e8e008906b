-- ===== src/Protocol/Parse/Ids.antt =====
-- The session ids and names that blemees_agent/protocol.py lets through.
use blemees_agent.Prelude.{
  leb, leb→le, Bool-cases, codes, length, take, all_of, All, length-append, length-take-le, Dict, ℕ,
  ◌≤◌, String, ◌≡◌, ◌∙◌, ◌≢◌, inl, inr, true, List, [], ◌∷◌, arith,
}
use blemees_agent.Errors.{>>=-eq-ok, ◌>>=◌, Result, ok, ◌>>=◌}
use blemees_agent.Value.{Value}
use blemees_agent.Protocol.{
  require_session_id, is_name_char, matches_name, is_valid_name, shown_id, ellipsis,
}
use blemees_agent.Protocol.Messages.{
  OpenMessage, PromptMessage, CancelMessage, CloseMessage, AttachMessage, DetachMessage,
  PermissionResponseMessage, SessionInfoMessage,
}
use blemees_agent.Protocol.Parse.{
  parse_open, parse_prompt, parse_cancel, parse_close, parse_attach, parse_detach,
  parse_permission_response, parse_session_info, check_names,
}

-- No slash, no backslash, no dot and no NUL.
abbrev pub IsPathChar : ℕ → Type 0
IsPathChar c = (c ≢ b'/') × (c ≢ 92) × (c ≢ b'.') × (c ≢ 0)

-- A text that is one component of a path below a directory, of bounded length.
pub record IsPathSafe (max_len : ℕ) (s : String) : Type 0 where
  pub nonempty : 1 ≤ length (codes s)
  pub short : length (codes s) ≤ max_len
  pub chars : All IsPathChar (codes s)

is_name_char-IsPathChar : (c : ℕ) → is_name_char c ≡ true → IsPathChar c
unfolding is_name_char
is_name_char-IsPathChar c h = (ground arith, ground arith, ground arith, ground arith)

All-name_chars : (cs : List ℕ) → all_of is_name_char cs ≡ true → All IsPathChar cs
All-name_chars [] h = tt
All-name_chars (c ∷ cs) h =
    (is_name_char-IsPathChar c (ground arith), All-name_chars cs (ground arith))

matches_name-IsPathSafe : (n : ℕ) (s : String) → matches_name n (codes s) ≡ true → IsPathSafe n s
unfolding matches_name
matches_name-IsPathSafe n s h = record {
  nonempty = leb→le 1 (length (codes s)) (ground arith);
  short = leb→le (length (codes s)) n (ground arith);
  chars = All-name_chars (codes s) (ground arith);
}

require_session_id-IsPathSafe :
    (obj : Dict Value) (s : String) → require_session_id obj ≡ ok s → IsPathSafe 128 s
unfolding require_session_id
require_session_id-IsPathSafe obj s h = matches_name-IsPathSafe 128 s (ground arith)

open_id :
    (obj : Dict Value) (m : OpenMessage)
    → parse_open obj ≡ ok m
    → require_session_id obj ≡ ok m.session_id
unfolding parse_open
open_id obj m h = ground arith

prompt_id :
    (obj : Dict Value) (m : PromptMessage)
    → parse_prompt obj ≡ ok m
    → require_session_id obj ≡ ok m.session_id
unfolding parse_prompt
prompt_id obj m h = ground arith

cancel_id :
    (obj : Dict Value) (m : CancelMessage)
    → parse_cancel obj ≡ ok m
    → require_session_id obj ≡ ok m.session_id
unfolding parse_cancel
cancel_id obj m h = ground arith

close_id :
    (obj : Dict Value) (m : CloseMessage)
    → parse_close obj ≡ ok m
    → require_session_id obj ≡ ok m.session_id
unfolding parse_close
close_id obj m h = ground arith

attach_id :
    (obj : Dict Value) (m : AttachMessage)
    → parse_attach obj ≡ ok m
    → require_session_id obj ≡ ok m.session_id
unfolding parse_attach
attach_id obj m h = ground arith

detach_id :
    (obj : Dict Value) (m : DetachMessage)
    → parse_detach obj ≡ ok m
    → require_session_id obj ≡ ok m.session_id
unfolding parse_detach
detach_id obj m h = ground arith

permission_response_id :
    (obj : Dict Value) (m : PermissionResponseMessage)
    → parse_permission_response obj ≡ ok m
    → require_session_id obj ≡ ok m.session_id
unfolding parse_permission_response
permission_response_id obj m h = ground arith

session_info_id :
    (obj : Dict Value) (m : SessionInfoMessage)
    → parse_session_info obj ≡ ok m
    → require_session_id obj ≡ ok m.session_id
unfolding parse_session_info
session_info_id obj m h = ground arith

-- The control messages that name a session.
pub data Named : Type 0 where
  named_open named_prompt named_cancel named_close named_attach named_detach : Named
  named_permission_response named_session_info : Named

-- The session id of the message that the parser of that kind makes.
unfoldable pub parsed_id : Named → Dict Value → Result String
parsed_id named_open obj = parse_open obj >>= λ m. ok m.session_id
parsed_id named_prompt obj = parse_prompt obj >>= λ m. ok m.session_id
parsed_id named_cancel obj = parse_cancel obj >>= λ m. ok m.session_id
parsed_id named_close obj = parse_close obj >>= λ m. ok m.session_id
parsed_id named_attach obj = parse_attach obj >>= λ m. ok m.session_id
parsed_id named_detach obj = parse_detach obj >>= λ m. ok m.session_id
parsed_id named_permission_response obj = parse_permission_response obj >>= λ m. ok m.session_id
parsed_id named_session_info obj = parse_session_info obj >>= λ m. ok m.session_id

-- Each control message that names a session, of any kind, carries an id of 1 to 128 characters
-- that is a safe path component: with no slash, backslash, dot or NUL.
pub session_id-IsPathSafe :
    (kind : Named) (obj : Dict Value) (id : String) → parsed_id kind obj ≡ ok id → IsPathSafe 128 id
unfolding parsed_id
session_id-IsPathSafe named_open obj id h =
    let (m, e, i) = >>=-eq-ok (parse_open obj) (λ m. ok m.session_id) h in
    require_session_id-IsPathSafe obj id (open_id obj m e ∙ i)
session_id-IsPathSafe named_prompt obj id h =
    let (m, e, i) = >>=-eq-ok (parse_prompt obj) (λ m. ok m.session_id) h in
    require_session_id-IsPathSafe obj id (prompt_id obj m e ∙ i)
session_id-IsPathSafe named_cancel obj id h =
    let (m, e, i) = >>=-eq-ok (parse_cancel obj) (λ m. ok m.session_id) h in
    require_session_id-IsPathSafe obj id (cancel_id obj m e ∙ i)
session_id-IsPathSafe named_close obj id h =
    let (m, e, i) = >>=-eq-ok (parse_close obj) (λ m. ok m.session_id) h in
    require_session_id-IsPathSafe obj id (close_id obj m e ∙ i)
session_id-IsPathSafe named_attach obj id h =
    let (m, e, i) = >>=-eq-ok (parse_attach obj) (λ m. ok m.session_id) h in
    require_session_id-IsPathSafe obj id (attach_id obj m e ∙ i)
session_id-IsPathSafe named_detach obj id h =
    let (m, e, i) = >>=-eq-ok (parse_detach obj) (λ m. ok m.session_id) h in
    require_session_id-IsPathSafe obj id (detach_id obj m e ∙ i)
session_id-IsPathSafe named_permission_response obj id h =
    let (m, e, i) = >>=-eq-ok (parse_permission_response obj) (λ m. ok m.session_id) h in
    require_session_id-IsPathSafe obj id (permission_response_id obj m e ∙ i)
session_id-IsPathSafe named_session_info obj id h =
    let (m, e, i) = >>=-eq-ok (parse_session_info obj) (λ m. ok m.session_id) h in
    require_session_id-IsPathSafe obj id (session_info_id obj m e ∙ i)

-- The id that is echoed in a refusal has at most 33 characters, however long the id that came.
pub length-shown_id : (cs : List ℕ) → length (shown_id cs) ≤ 33
unfolding shown_id
length-shown_id cs = elim (Bool-cases (leb (length cs) 32)) [
  | inl short ↦ rw short (omega (arith, leb→le (length cs) 32 short))
  | inr long ↦
      rw long (omega (arith, length-append (take 32 cs) (ellipsis ∷ []), length-take-le 32 cs))
]

check_names-valid :
    (ks : List String) → check_names ks ≡ ok tt → All (λ k. is_valid_name k ≡ true) ks
unfolding check_names
check_names-valid [] h = tt
check_names-valid (k ∷ ks) h = (ground arith, check_names-valid ks (ground arith))
