-- ===== src/Daemon/Dispatch/Replies.antt =====
-- The replies to the requests (blemees_agent/daemon.py).
pub mod Handlers
use mathlib.Core.Path.{subst}
use blemees_agent.Prelude.{
  ltb, leb, nat_eq, if◌then◌else◌, ltb→lt, lt→ltb, ltb-false, ltb-false→le, leb→le, nat_eq_iff,
  tests, Bool-cases, Option-cases, List-cases, is_some, is_none, or_else, from_option, codes,
  length, take, drop, take_last, head?, last?, keep_if, find_first, all_of, any_of, All,
  length-append, length-drop, length-take-le, drop-append, drop-nil, drop-drop, All-append,
  All-drop, All-map, In, All-In, In-keep_if, keep_if_sound, In-append, Dict, lookup, insert, erase,
  keys, values, lookup-insert, lookup-erase, Unique, Unique-insert, update_with, Each, Each-insert,
  Each-erase, Each-lookup, lookup-update_with, Unique-update_with, dict_laws, ℕ, zero, suc, ◌+◌,
  ◌-◌, ◌*◌, ◌≤◌, ◌<◌, ◌≡◌, sym, ap, ◌∙◌, ◌≢◌, ◌↔◌, ◌⊎◌, inl, Bool, true, false, not, ◌&&◌, ◌||◌,
  none, some, List, ◌∷◌, ◌++◌, map, arith, ◌==◌, eq_iff, eq_refl,
}
use blemees_agent.Errors.{
  ErrorCode, session_unknown, unsafe_flag_error, unknown_backend_error, protocol_error, type_error,
  request_error, code_of, Failure, Result, ok, err, Result-cases, auth_required_error,
  spawn_failed_error,
}
use blemees_agent.Protocol.Messages.{
  OpenMessage, AttachMessage, DetachMessage, CloseMessage, CancelMessage, ProfileActionMessage,
  SessionInfoMessage,
}
use blemees_agent.Session.{Session}
use blemees_agent.Supervisor.{Supervisor, resolve, make_handle, stop, webhook_url_for}
use blemees_agent.Supervisor.Profiles.{Profile, Agent}
use blemees_agent.Table.{remove}
use blemees_agent.Daemon.{
  table_effects, change, disown, closed_reply, error_reply, Daemon, DaemonEffect, Handled, Reply,
  reply, owns, try_get, Spawned, is_running, opened_reply, cancelled_reply, attached_reply,
  detached_reply, pong, info_reply, profile_stopped, profile_created, profile_updated,
  profile_deleted, notify_test_result,
}
use blemees_agent.Daemon.Open.{
  resume_id, claim, wired, adopt, give_up, spawn_failed, serve_open, spawn_open, handle_open,
}
use blemees_agent.Daemon.Drive.{tell_watchers, handle_cancel, handle_close}
use blemees_agent.Daemon.Ownership.Attach.{Role-cases}
use blemees_agent.Daemon.Attach.{
  attach_viewer, attach_owner, detach_viewer, handle_attach, handle_detach,
}
use blemees_agent.Daemon.Profiles.{
  live_sessions_for, answered_by, unless_in_use, handle_profile_stop, profile_or_default,
}
use blemees_agent.Daemon.Info.{handle_session_info}
use blemees_agent.Session.Summary.{usage_snapshot}
use blemees_agent.Session.Attach.{remove_watcher}
use blemees_agent.Session.Attach.Replay.{In-append_left}
use blemees_agent.Registry.{get_record}
use blemees_agent.Prelude.Int.{ℤ}
use blemees_agent.Value.{Value}
use blemees_agent.Daemon.Views.{unless_null}
use blemees_agent.Daemon.Steps.{settle, error_frame}
use blemees_agent.Daemon.Dispatch.{
  Request, open_request, prompt_request, cancel_request, close_request, ping_request,
  attach_request, detach_request, permission_request, stop_request, delete_request, create_request,
  update_request, notify_test_request, info_request,
}
use blemees_agent.Daemon.Dispatch.Replies.Handlers.{
  IsError, AnswersOpen, AnswersCancel, AnswersAttach, was_attached, AnswersInfo, Answers,
  AnswersStop,
}

-- A request that asks for a reply: a prompt's answer is its events, and a permission response has
-- none.
abbrev pub asks_reply : Request → Bool
asks_reply (prompt_request msg answer sent) = false
asks_reply (permission_request msg) = false
asks_reply _ = true

-- The replies to a request of connection `c` in the state `d`.
abbrev pub IsReplyTo : ℕ → Daemon → Request → Reply → Type 0
IsReplyTo c d (open_request msg answer) r = AnswersOpen msg r
IsReplyTo c d (prompt_request msg answer sent) r = IsError r
IsReplyTo c d (cancel_request msg killed) r = AnswersCancel c msg killed d r
IsReplyTo c d (close_request msg) r = r ≡ closed_reply msg.id msg.session_id
IsReplyTo c d (ping_request msg) r = r ≡ pong msg.id (unless_null msg.payload)
IsReplyTo c d (attach_request msg) r = AnswersAttach msg (try_get msg.session_id d) r
IsReplyTo c d (detach_request msg) r =
    r ≡ detached_reply msg.id msg.session_id (was_attached c msg d)
IsReplyTo c d (permission_request msg) r = IsError r
IsReplyTo c d (stop_request msg) r = AnswersStop msg r
IsReplyTo c d (delete_request msg) r = Answers (profile_deleted msg.id msg.name) r
IsReplyTo c d (create_request msg) r = Answers (profile_created msg.id msg.name) r
IsReplyTo c d (update_request msg) r = Answers (profile_updated msg.id msg.name) r
IsReplyTo c d (notify_test_request msg) r =
    r
    ≡ notify_test_result msg.id (profile_or_default msg.profile)
        (is_some (webhook_url_for (some (profile_or_default msg.profile)) d.supervisor))
IsReplyTo c d (info_request msg to_int) r = AnswersInfo msg d r
