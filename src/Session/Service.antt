-- ===== src/Session/Service.antt =====
-- internal/session/service.go: the methods of `Service` as steps on its state; the lock makes each
-- one. What the operating system answers is an argument: the pid that a spawn gives or its
-- failure, whether a resize works, the times.
use wmux.Prelude.{
  ℕ, ◌+◌, ◌*◌, leb, ltb, ◌==◌, ◌&&◌, if◌then◌else◌, Bool, true, false, List, [], Option, none, some,
  Bytes, lookup, insert, delete, length, map,
}
use wmux.Prelude.Int.{ℤ, pos}
use wmux.Session.Ids.{validate_session_id, extract_prefix}
use wmux.Session.Buffer.{new_buffer, write, read}
use wmux.Session.Defs.{
  State, alive, detached, exited, Session, CreateOptions, Managed, invalid_session_id,
  session_exists, max_sessions, spawn_failed, session_not_found, resize_failed, Result, ok, err,
  Service, update, positive_or,
}

abbrev pub default_high_watermark : ℕ
default_high_watermark = 4 * 1024 * 1024

abbrev pub default_low_watermark : ℕ
default_low_watermark = 2 * 1024 * 1024

unfoldable pub new_session : Bytes → CreateOptions → ℕ → ℕ → Session
unfolding extract_prefix
new_session id opts pid now = record {
  id = id;
  prefix = (extract_prefix id).0;
  state = alive;
  pid = pid;
  cols = pos (positive_or 80 opts.cols);
  rows = pos (positive_or 24 opts.rows);
  shell = opts.shell;
  cwd = opts.cwd;
  exit_code = pos 0;
  started_at = now;
  ended_at = 0;
  metadata = [];
}

unfoldable pub new_managed : Bytes → CreateOptions → ℕ → ℕ → Managed
new_managed id opts pid now = record {
  session = new_session id opts pid now;
  buffer =
      new_buffer (positive_or default_high_watermark opts.high_watermark)
        (positive_or default_low_watermark opts.low_watermark);
  last_activity = now;
  batcher_stopped = false;
  pty_closed = false;
}

abbrev pub at_limit : Service → Bool
at_limit s = ltb 0 s.max_sessions && leb s.max_sessions (length s.sessions)

abbrev empty_cell : Managed
empty_cell =
    new_managed []
      (record {
        shell = [];
        args = [];
        cols = pos 0;
        rows = pos 0;
        cwd = [];
        env = [];
        high_watermark = pos 0;
        low_watermark = pos 0;
      })
      0 0

-- `NewService` with a limit; what the cells hold before `create` fills them does not matter.
unfoldable pub new_service : ℕ → Service
unfolding new_managed
new_service limit = record { sessions = []; cell = λ h. empty_cell; next = 0; max_sessions = limit }

-- `Create`, from the lock on; `spawn` is the new process's pid, or `none` for an error.
unfoldable pub create_locked :
    Bytes → CreateOptions → Option ℕ → ℕ → Service → Service × Result Session
create_locked id opts spawn now s = elim (lookup id s.sessions) [
  | some _ ↦ (s, err session_exists)
  | none ↦ if at_limit s then (s, err max_sessions) else elim spawn [
    | none ↦ (s, err spawn_failed)
    | some pid ↦ (
      record s {
        sessions = insert id s.next s.sessions;
        cell = update s.cell s.next (new_managed id opts pid now);
        next = s.next + 1;
      },
      ok (new_session id opts pid now),
    )
  ]
]

unfoldable pub create : Bytes → CreateOptions → Option ℕ → ℕ → Service → Service × Result Session
create id opts spawn now s =
    if validate_session_id id
    then create_locked id opts spawn now s
    else (s, err invalid_session_id)

-- The methods that begin with a lookup under the lock.
abbrev pub with_session {ℓ} :
    {A : Type ℓ} → Bytes → Service → (ℕ → Service × Result A) → Service × Result A
with_session id s f = elim (lookup id s.sessions) [
  | none ↦ (s, err session_not_found)
  | some h ↦ f h
]

unfoldable pub get : Bytes → Service → Result Session
get id s = elim (lookup id s.sessions) [
  | none ↦ err session_not_found
  | some h ↦ ok (s.cell h).session
]

unfoldable pub list : Service → List Session
list s = map (λ e. (s.cell e.1).session) s.sessions

abbrev pub put : ℕ → Managed → Service → Service
put h m s = record s { cell = update s.cell h m }

-- `Kill`: the entry goes, the batcher is stopped and the PTY closed, which ends the process; the
-- rest is `wait_loop`'s.
unfoldable pub kill : Bytes → Service → Service × Result (Unit {0})
kill id s = with_session id s λ h. (
  put h (record (s.cell h) { batcher_stopped = true; pty_closed = true })
      (record s { sessions = delete id s.sessions }),
  ok tt,
)

abbrev pub set_state : ℕ → State → Service → Service
set_state h st s =
    put h (record (s.cell h) { session = record (s.cell h).session { state = st } }) s

unfoldable pub attach_at : ℕ → State → Service → Service
attach_at h detached s = set_state h alive s
attach_at h _ s = s

unfoldable pub attach : Bytes → Service → Service × Result (Unit {0})
unfolding attach_at
attach id s = with_session id s λ h. (attach_at h (s.cell h).session.state s, ok tt)

unfoldable pub detach_at : ℕ → State → Service → Service
detach_at h alive s = set_state h detached s
detach_at h _ s = s

unfoldable pub detach : Bytes → Service → Service × Result (Unit {0})
unfolding detach_at
detach id s = with_session id s λ h. (detach_at h (s.cell h).session.state s, ok tt)

abbrev pub last_activity_of : Managed → ℕ
last_activity_of m = if m.last_activity == 0 then m.session.started_at else m.last_activity

unfoldable pub last_activity : Bytes → Service → Result ℕ
last_activity id s = elim (lookup id s.sessions) [
  | none ↦ err session_not_found
  | some h ↦ ok (last_activity_of (s.cell h))
]

-- `works` is what the PTY's resize reports. (The emulator is resized as well.)
unfoldable pub resize : Bool → Bytes → ℤ → ℤ → Service → Service × Result (Unit {0})
resize works id cols rows s = with_session id s λ h.
    if works
    then (
      put h (record (s.cell h) { session = record (s.cell h).session { cols = cols; rows = rows } })
          s,
      ok tt,
    )
    else (s, err resize_failed)

unfoldable pub meta_set : Bytes → Bytes → Bytes → Service → Service × Result (Unit {0})
meta_set id key value s = with_session id s λ h. (
  put h
      (record (s.cell h) {
        session = record (s.cell h).session {
          metadata = insert key value (s.cell h).session.metadata;
        };
      })
      s,
  ok tt,
)

abbrev or_empty : Option Bytes → Bytes
or_empty none = []
or_empty (some v) = v

unfoldable pub meta_get : Bytes → Bytes → Service → Result Bytes
meta_get id key s = elim (lookup id s.sessions) [
  | none ↦ err session_not_found
  | some h ↦ ok (or_empty (lookup key (s.cell h).session.metadata))
]

-- The callback of the batcher: its bytes go to the buffer of its session.
unfoldable pub flush : Bool → ℕ → Bytes → Service → Service
flush grow h p s = put h (record (s.cell h) { buffer = write grow p (s.cell h).buffer }) s

unfoldable pub read_output : Bytes → Service → Service × Result Bytes
read_output id s = with_session id s λ h.
    let (out, rest) = read (s.cell h).buffer in
    (put h (record (s.cell h) { buffer = rest }) s, ok out.bytes)

-- `waitLoop` of the session under the handle `h`, when its process has ended: the exit is recorded,
-- and the entry of the session's ID is deleted. It also gives the arguments of `onExit`.
unfoldable pub wait_loop : ℕ → ℤ → ℕ → Service → Service × (Bytes × ℤ)
wait_loop h code now s =
    let m = s.cell h in
    (
      put h
          (record m {
            session = record m.session { exit_code = code; ended_at = now; state = exited };
            batcher_stopped = true;
            pty_closed = true;
          })
          (record s { sessions = delete m.session.id s.sessions }),
      (m.session.id, code),
    )
