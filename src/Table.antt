-- ===== src/Table.antt =====
-- `SessionTable` of blemees_agent/session.py.
pub mod Bounds
pub mod Reaper
pub mod Detach
use blemees_agent.Prelude.{
  leb, nat_eq, if◌then◌else◌, is_some, is_none, length, keep_if, Dict, lookup, insert, erase, keys,
  values, ℕ, suc, ◌+◌, String, Bool, true, false, not, ◌&&◌, Option, none, some, List, [], ◌∷◌,
  ◌++◌, ◌==◌,
}
use blemees_agent.Errors.{Result, ok, err, session_exists_error, session_unknown_error}
use blemees_agent.Session.{Session, Backend}
use blemees_agent.Session.Attach.{detach_writer, mark_finishing, remove_watcher}
use blemees_agent.Session.Permission.{cancel_pending_permissions}

-- `sessions` is the dict `_sessions`.
pub record SessionTable : Type 0 where
  pub sessions : Dict Session
  pub idle_timeout_s : ℕ
  pub max_concurrent : ℕ

-- What a method does to a session's backend and files, by the session's id.
pub data TableEffect : Type 0 where
  close_backend close_log unlink_log unlink_usage : String → TableEffect

unfoldable pub register : Session → SessionTable → Result SessionTable
register s t =
    if is_some (lookup s.session_id t.sessions)
    then err (session_exists_error s.session_id)
    else if leb t.max_concurrent (length t.sessions)
    then err (session_exists_error "max_concurrent_sessions reached")
    else ok (record t { sessions = insert s.session_id s t.sessions })

-- The method `get`.
unfoldable pub find : String → SessionTable → Result Session
find id t = elim (lookup id t.sessions) [ none ↦ err (session_unknown_error id) | some s ↦ ok s ]

abbrev pub active_turn : Session → Bool
active_turn s = elim s.backend [ none ↦ false | some b ↦ b.running && b.turn_active ]

unfoldable pub iter_with_active_turn : SessionTable → List Session
iter_with_active_turn t = keep_if active_turn (values t.sessions)

abbrev pub same_text : Option String → Option String → Bool
same_text none none = true
same_text (some a) (some b) = a == b
same_text _ _ = false

unfoldable pub iter_by_cwd : Option String → SessionTable → List Session
iter_by_cwd cwd t = keep_if (λ s. same_text s.cwd cwd) (values t.sessions)

-- `detach_soft` of one session: a turn in flight is let finish, any other backend is closed.
unfoldable pub detach_backend : Option Backend → Session → Session × List TableEffect
detach_backend none s = (s, [])
detach_backend (some b) s =
    if not b.running
    then (record s { backend = none }, [])
    else if b.turn_active
    then (mark_finishing s, [])
    else (record s { backend = none }, close_backend s.session_id ∷ [])

unfoldable pub detach_session : ℕ → Session → Session × List TableEffect
detach_session now s = detach_backend s.backend (detach_writer now s)

unfoldable pub detach_soft : ℕ → String → SessionTable → SessionTable × List TableEffect
detach_soft now id t = elim (lookup id t.sessions) [
  | none ↦ (t, [])
  | some s ↦ let d = detach_session now s in (record t { sessions = insert id d.0 t.sessions }, d.1)
]

abbrev pub owned_by : ℕ → Session → Bool
owned_by c s = elim s.connection_id [ none ↦ false | some d ↦ nat_eq d c ]

-- The loop of `detach_all_for_connection`, over a copy of the sessions.
unfoldable pub detach_each :
    ℕ → ℕ → Dict Session → SessionTable → SessionTable × List TableEffect × List String
detach_each now c [] t = (t, [], [])
detach_each now c ((id, s) ∷ rest) t =
    let done = detach_soft now s.session_id t in
    let next = detach_each now c rest (if owned_by c s then done.0 else t) in
    if owned_by c s then (next.0, done.1 ++ next.1, s.session_id ∷ next.2) else next

unfoldable pub detach_all_for_connection :
    ℕ → ℕ → SessionTable → SessionTable × List TableEffect × List String
unfolding detach_each
detach_all_for_connection now c t = detach_each now c t.sessions t

abbrev pub unwatch_each : ℕ → Dict Session → Dict Session × ℕ
unwatch_each c [] = ([], 0)
unwatch_each c ((id, s) ∷ rest) =
    let r = remove_watcher c s in
    let next = unwatch_each c rest in ((id, r.0) ∷ next.0, if r.1 then suc next.1 else next.1)

unfoldable pub remove_all_watchers_for_connection : ℕ → SessionTable → SessionTable × ℕ
remove_all_watchers_for_connection c t =
    let r = unwatch_each c t.sessions in (record t { sessions = r.0 }, r.1)

-- What `remove` does with the session that it took out.
abbrev pub teardown : Bool → Session → List TableEffect
teardown delete_file s =
    (if is_some s.backend then close_backend s.session_id ∷ [] else [])
    ++ (if is_some s.log
        then (if delete_file then unlink_log s.session_id else close_log s.session_id) ∷ []
        else [])
    ++ (if delete_file && is_some s.log then unlink_usage s.session_id ∷ [] else [])

-- The session that was removed comes back, its permission requests cancelled.
unfoldable pub remove :
    String → Bool → SessionTable → SessionTable × List TableEffect × Option Session
remove id delete_file t = elim (lookup id t.sessions) [
  | none ↦ (t, [], none)
  | some s ↦ (
    record t { sessions = erase id t.sessions },
    teardown delete_file s,
    some (cancel_pending_permissions s),
  )
]

abbrev pub is_expired : ℕ → ℕ → Session → Bool
is_expired now timeout s =
    is_none s.connection_id
    && elim s.detached_at [ none ↦ false | some at ↦ leb (timeout + at) now ]

unfoldable pub expired_ids : ℕ → ℕ → Dict Session → List String
expired_ids now timeout [] = []
expired_ids now timeout ((id, s) ∷ rest) =
    let more = expired_ids now timeout rest in
    if is_expired now timeout s then s.session_id ∷ more else more

unfoldable pub remove_each : List String → SessionTable → SessionTable × List TableEffect
unfolding remove
remove_each [] t = (t, [])
remove_each (id ∷ ids) t =
    let r = remove id false t in let next = remove_each ids r.0 in (next.0, r.1 ++ next.1)

unfoldable pub reap_idle : ℕ → SessionTable → SessionTable × List TableEffect × List String
unfolding expired_ids remove_each
reap_idle now t =
    let expired = expired_ids now t.idle_timeout_s t.sessions in
    let r = remove_each expired t in (r.0, r.1, expired)

unfoldable pub shutdown : SessionTable → SessionTable × List TableEffect
unfolding remove_each
shutdown t = remove_each (keys t.sessions) t
