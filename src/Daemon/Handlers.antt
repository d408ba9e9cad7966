-- ===== src/Daemon/Handlers.antt =====
-- The handlers of internal/daemon/service.go that work on the session service alone: handleList,
-- handleInfo, handleKill, handleResize, handleInput, handleMetaSet, handleMetaGet, handleExec,
-- handleExecSync and handleKillPrefix. A request whose JSON is not valid is `none`; the response is a value.
-- `works` tells whether a write to the PTY of a session, or its resize, succeeds.
pub mod Prefix
use wmux.Prelude.{
  ℕ, ltb, not, ◌&&◌, if◌then◌else◌, Bool, true, false, List, [], ◌∷◌, ◌++◌, Option, none, some,
  Bytes, map, bytes_eq, Map, lookup, length,
}
use wmux.Prelude.Int.{ℤ}
use wmux.Prelude.Search.{has_prefix}
use wmux.Session.Defs.{Session, Error, session_not_found, Result, ok, err, Service}
use wmux.Session.Service.{get, list, kill, resize, meta_set, meta_get}
use wmux.Daemon.Payload.{decode_data_payload}

-- What `WriteInput` returns.
pub data InputResult : Type 0 where
  written no_session write_failed : InputResult

pub record ExecResult : Type 0 where
  pub session_id : Bytes
  pub result : InputResult

pub data Reply : Type 0 where
  invalid_request done : Reply
  failed : Error → Reply
  input_failed : InputResult → Reply
  one : Session → Reply
  many : List Session → Reply
  value : Bytes → Reply
  metadata : Map Bytes → Reply
  prefix_required no_sessions both_given no_matching_sessions : Reply
  executed : List ExecResult → Reply
  killed : List Bytes → List (Bytes × Error) → Reply

slash : ℕ
slash = b'/'

-- `strings.HasPrefix(id, prefix + "/")`.
unfoldable pub under : Bytes → Bytes → Bool
unfolding slash
under prefix id = has_prefix id (prefix ++ slash ∷ [])

unfoldable pub filter_ids : (Bytes → Bool) → List Session → List Bytes
filter_ids test [] = []
filter_ids test (x ∷ xs) = if test x.id then x.id ∷ filter_ids test xs else filter_ids test xs

unfoldable pub sessions_by_prefix : Bytes → Service → List Bytes
unfolding filter_ids under
sessions_by_prefix prefix s = filter_ids (under prefix) (list s)

keep : Bytes → List Session → List Session
unfolding under
keep [] xs = xs
keep (p ∷ ps) [] = []
keep (p ∷ ps) (x ∷ xs) = if under (p ∷ ps) x.id then x ∷ keep (p ∷ ps) xs else keep (p ∷ ps) xs

-- The prefix of the request; one that is missing, or that cannot be read, is empty.
unfoldable pub handle_list : Bytes → Service → Reply
unfolding keep
handle_list prefix s = many (keep prefix (list s))

reply_session : Result Session → Reply
reply_session (ok x) = one x
reply_session (err e) = failed e

reply_done : Service × Result (Unit {0}) → Service × Reply
reply_done (s, ok _) = (s, done)
reply_done (s, err e) = (s, failed e)

unfoldable pub handle_info : Option Bytes → Service → Reply
unfolding reply_session
handle_info none s = invalid_request
handle_info (some id) s = reply_session (get id s)

unfoldable pub handle_kill : Option Bytes → Service → Service × Reply
unfolding reply_done
handle_kill none s = (s, invalid_request)
handle_kill (some id) s = reply_done (kill id s)

unfoldable pub handle_resize : Bool → Option (Bytes × ℤ × ℤ) → Service → Service × Reply
unfolding reply_done
handle_resize works none s = (s, invalid_request)
handle_resize works (some (id, cols, rows)) s = reply_done (resize works id cols rows s)

-- `WriteInput`.
unfoldable pub write_input : (Bytes → Bool) → Bytes → Service → InputResult
write_input works id s = elim (lookup id s.sessions) [
  | none ↦ no_session
  | some _ ↦ if works id then written else write_failed
]

-- The bytes that then go to the PTY of the session, if there is one.
unfoldable pub pty_write : Bytes → Bytes → Service → List (Bytes × Bytes)
pty_write id input s = elim (lookup id s.sessions) [ none ↦ [] | some _ ↦ (id, input) ∷ [] ]

reply_input : InputResult → Reply
reply_input written = done
reply_input r = input_failed r

unfoldable pub handle_input : (Bytes → Bool) → Bytes → Service → Reply × List (Bytes × Bytes)
unfolding write_input pty_write reply_input
handle_input works payload s = elim (decode_data_payload payload) [
  | none ↦ (invalid_request, [])
  | some (id, data_bytes) ↦ (reply_input (write_input works id s), pty_write id data_bytes s)
]

unfoldable pub handle_meta_set : Option (Bytes × Bytes × Bytes) → Service → Service × Reply
unfolding reply_done
handle_meta_set none s = (s, invalid_request)
handle_meta_set (some (id, key, v)) s = reply_done (meta_set id key v s)

-- `MetaGetAll`.
unfoldable pub meta_get_all : Bytes → Service → Result (Map Bytes)
meta_get_all id s = elim (lookup id s.sessions) [
  | none ↦ err session_not_found
  | some h ↦ ok (s.cell h).session.metadata
]

reply_all : Result (Map Bytes) → Reply
reply_all (ok m) = metadata m
reply_all (err e) = failed e

reply_value : Result Bytes → Reply
reply_value (ok v) = value v
reply_value (err e) = failed e

unfoldable pub handle_meta_get : Option (Bytes × Bytes) → Service → Reply
unfolding reply_all reply_value meta_get_all
handle_meta_get none s = invalid_request
handle_meta_get (some (id, [])) s = reply_all (meta_get_all id s)
handle_meta_get (some (id, k ∷ key)) s = reply_value (meta_get id (k ∷ key) s)

newline_if : Bool → Bytes → Bytes
newline_if true input = input ++ 10 ∷ []
newline_if false input = input

pub record ExecRequest : Type 0 where
  pub session_id : Bytes
  pub input : Bytes
  pub newline : Bool

unfoldable pub handle_exec :
    (Bytes → Bool) → Option ExecRequest → Service → Reply × List (Bytes × Bytes)
unfolding write_input pty_write reply_input newline_if
handle_exec works none s = (invalid_request, [])
handle_exec works (some req) s = (
  reply_input (write_input works req.session_id s),
  pty_write req.session_id (newline_if req.newline req.input) s,
)

pub record ExecSyncRequest : Type 0 where
  pub session_ids : List Bytes
  pub prefix : Bytes
  pub input : Bytes
  pub newline : Bool

exec_all : (Bytes → Bool) → List Bytes → Bytes → Service → List ExecResult × List (Bytes × Bytes)
unfolding write_input pty_write
exec_all works [] input s = ([], [])
exec_all works (id ∷ ids) input s =
    let (results, writes) = exec_all works ids input s in
    (
      record { session_id = id; result = write_input works id s } ∷ results,
      pty_write id input s ++ writes,
    )

exec_targets : (Bytes → Bool) → List Bytes → Bytes → Service → Reply × List (Bytes × Bytes)
unfolding exec_all
exec_targets works [] input s = (no_matching_sessions, [])
exec_targets works (id ∷ ids) input s =
    let (results, writes) = exec_all works (id ∷ ids) input s in (executed results, writes)

is_empty : Bytes → Bool
is_empty [] = true
is_empty (c ∷ s) = false

unfoldable pub handle_exec_sync :
    (Bytes → Bool) → Option ExecSyncRequest → Service → Reply × List (Bytes × Bytes)
unfolding exec_targets is_empty newline_if
handle_exec_sync works none s = (invalid_request, [])
handle_exec_sync works (some req) s =
    let input = newline_if req.newline req.input in
    if ltb 0 (length req.session_ids) && not (is_empty req.prefix)
    then (both_given, [])
    else if is_empty req.prefix
    then exec_targets works req.session_ids input s
    else exec_targets works (sessions_by_prefix req.prefix s) input s

-- The loop of handleKillPrefix: the ids that were killed, and the errors of the others.
unfoldable pub kill_all : List Bytes → Service → Service × List Bytes × List (Bytes × Error)
kill_all [] s = (s, [], [])
kill_all (id ∷ ids) s =
    let (t, r) = kill id s in
    let (u, gone, errors) = kill_all ids t in
    elim r [ ok _ ↦ (u, id ∷ gone, errors) | err e ↦ (u, gone, (id, e) ∷ errors) ]

kill_targets : List Bytes → Service → Service × Reply
unfolding kill_all
kill_targets [] s = (s, no_sessions)
kill_targets (id ∷ ids) s = let (t, gone, errors) = kill_all (id ∷ ids) s in (t, killed gone errors)

unfoldable pub handle_kill_prefix : Option Bytes → Service → Service × Reply
unfolding kill_targets sessions_by_prefix
handle_kill_prefix none s = (s, invalid_request)
handle_kill_prefix (some []) s = (s, prefix_required)
handle_kill_prefix (some (p ∷ ps)) s = kill_targets (sessions_by_prefix (p ∷ ps) s) s
