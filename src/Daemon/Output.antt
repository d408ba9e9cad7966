-- ===== src/Daemon/Output.antt =====
-- The way of a session's output through internal/daemon/service.go: flushSessionOutput and flushOutput,
-- with what they call for each chunk: scanOSC, scanDA, persistOutput, teeRecording,
-- notifyOutputWaiters and BroadcastTo. What reaches the command service and the PTY is an effect.
-- `none` is a panic.
pub mod Keeps
pub mod Receipt
pub mod Reads
pub mod Passes
pub mod Delivery
pub mod Batches
pub mod Pipeline
use wmux.Prelude.{
  ℕ, ltb, ◌==◌, not, ◌&&◌, if◌then◌else◌, Bool, true, false, List, [], ◌∷◌, ◌++◌, Option, none,
  some, Bytes, bytes_eq, codes, Map, map, lookup, insert, delete, length, ◌>>=◌,
}
use wmux.Prelude.Int.{ℤ}
use wmux.Session.Defs.{Service, Result, ok, err}
use wmux.Session.Service.{read_output, meta_set}
use wmux.Events.{Event, text}
use wmux.Events.Names.{cwd_changed, notification, shell_ready, recording_limit_reached}
use wmux.Protocol.{Frame}
use wmux.Transport.{Server, frame}
use wmux.Transport.Registry.{broadcast_to}
use wmux.Platform.Scrollback
use wmux.Platform.Recording
use wmux.Daemon.Payload.{encode_data_payload}
use wmux.Daemon.Da.{scan_da}
use wmux.Daemon.Osc.{Call, changes_cwd, notifies, tells_ready, marks, scan_osc}
use wmux.Daemon.Attach.{Clients, Daemon}
use wmux.Daemon.Waiters.{Waiter, Waiters, notify_output_waiters}

abbrev pub msg_data : ℕ
msg_data = 1

-- What the daemon asks of the libraries and of the system: url.Parse, a write to a file, the JSON of
-- a recorded event, and whether a connection can be written to.
pub record World : Type 0 where
  pub parse_url : Bytes → Option Bytes
  pub file : Bytes → ℕ × Bool
  pub line : Bytes → Option Bytes
  pub writable : ℕ → Bool

pub record State : Type 0 where
  pub daemon : Daemon
  pub server : Server
  pub waiters : Waiters
  pub line_counters : Map ℕ
  pub scrollback_writers : Map Scrollback.Writer
  pub recordings : Map Recording.Writer

pub data Effect : Type 0 where
  sent : Bytes → wmux.Transport.Effect → Effect
  published : Event → Effect
  marked : Bytes → ℕ → ℤ → ℕ → Effect
  injected : Bytes → Bytes → Effect

abbrev pub Outcome : Type 0
Outcome = Option (State × List Effect)

-- One call of `scanOSC`, on the session service.
unfoldable pub call_effect : Bytes → Call → Effect
call_effect id (changes_cwd v) =
    published (record { type = cwd_changed; session_id = id; payload = (codes "cwd", text v) ∷ [] })
call_effect id (notifies v) =
    published
      (record { type = notification; session_id = id; payload = (codes "body", text v) ∷ [] })
call_effect id tells_ready =
    published (record { type = shell_ready; session_id = id; payload = [] })
call_effect id (marks code exit row) = marked id code exit row

unfoldable pub apply_call : Bytes → Call → Service → Service
apply_call id (changes_cwd v) s = (meta_set id (codes "cwd") v s).0
apply_call id (notifies v) s = s
apply_call id tells_ready s = s
apply_call id (marks code exit row) s = s

unfoldable pub apply_calls : Bytes → List Call → Service → Service
unfolding apply_call
apply_calls id [] s = s
apply_calls id (c ∷ cs) s = apply_calls id cs (apply_call id c s)

with_service : Service → State → State
with_service s st = record st { daemon = record st.daemon { service = s } }

store_counter : Bytes → Option ℕ → Map ℕ → Map ℕ
store_counter id none m = m
store_counter id (some n) m = insert id n m

-- `scanOSC`, with its calls carried out.
unfoldable pub scan_osc_step : World → Bytes → Bytes → State → Outcome
unfolding scan_osc apply_calls call_effect with_service store_counter
scan_osc_step w id output st = do
  (counter, calls) ← scan_osc w.parse_url output (lookup id st.line_counters)
  some (
    record (with_service (apply_calls id calls st.daemon.service) st) {
      line_counters = store_counter id counter st.line_counters;
    },
    map (call_effect id) calls,
  )

client_count : Option Clients → ℕ
client_count none = 0
client_count (some cs) = length cs

unfoldable pub scan_da_step : Bytes → Bytes → State → List Effect
unfolding scan_da client_count
scan_da_step id output st =
    map (injected id) (scan_da (client_count (lookup id st.daemon.attachments)) output)

unfoldable pub persist_output : World → Bytes → Bytes → State → State
persist_output w id output st = elim (lookup id st.scrollback_writers) [
  | none ↦ st
  | some x ↦ record st {
    scrollback_writers = insert id (Scrollback.write w.file output x).0 st.scrollback_writers;
  }
]

limit_event : Bytes → Event
limit_event id = record { type = recording_limit_reached; session_id = id; payload = [] }

-- The writer is dropped from the map if it reports its limit.
tee_result :
    Bytes
    → Recording.Writer × ℕ × Option Recording.Error
    → Map Recording.Writer
    → Map Recording.Writer × List Effect
unfolding limit_event
tee_result id (x, n, some Recording.size_limit_reached) m =
    (delete id m, published (limit_event id) ∷ [])
tee_result id (x, n, _) m = (insert id x m, [])

unfoldable pub tee_recording : World → Bytes → Bytes → State → State × List Effect
unfolding tee_result
tee_recording w id output st = elim (lookup id st.recordings) [
  | none ↦ (st, [])
  | some x ↦
      let (m, told) = tee_result id (Recording.write w.line w.file output x) st.recordings in
      (record st { recordings = m }, told)
]

-- The five calls that each chunk goes through.
unfoldable pub process : World → Bytes → Bytes → State → Outcome
unfolding scan_osc_step scan_da_step persist_output tee_recording notify_output_waiters
process w id output st = do
  (s₁, scanned) ← scan_osc_step w id output st
  let answers = scan_da_step id output s₁
  let s₂ = persist_output w id output s₁
  let (s₃, told) = tee_recording w id output s₂
  some (
    record s₃ { waiters = notify_output_waiters id output s₃.waiters },
    scanned ++ answers ++ told,
  )

data_frame : Bytes → Bytes → Frame
data_frame id output = frame msg_data (encode_data_payload id output)

-- `BroadcastTo` for each client of the set.
unfoldable pub broadcast_all : World → Frame → Clients → Server → List Effect
unfolding broadcast_to
broadcast_all w f [] server = []
broadcast_all w f ((client, _) ∷ cs) server =
    map (sent client) (broadcast_to w.writable client f server).0 ++ broadcast_all w f cs server

-- With what `ReadOutput` returned; an empty read is skipped like a failed one.
flush_read : World → Bytes → Clients → State → Service × Result Bytes → Outcome
unfolding process data_frame broadcast_all with_service
flush_read w id cs st (s, err e) = some (with_service s st, [])
flush_read w id cs st (s, ok []) = some (with_service s st, [])
flush_read w id cs st (s, ok (b ∷ bs)) = do
  (t, effects) ← process w id (b ∷ bs) (with_service s st)
  some (t, effects ++ broadcast_all w (data_frame id (b ∷ bs)) cs t.server)

unfoldable pub flush_one : World → Bytes → Clients → State → Outcome
unfolding flush_read read_output
flush_one w id cs st = flush_read w id cs st (read_output id st.daemon.service)

unfoldable pub flush_each : World → Map Clients → State → Outcome
unfolding flush_one
flush_each w [] st = some (st, [])
flush_each w ((id, cs) ∷ m) st = do
  (s, effects) ← flush_one w id cs st
  (t, more) ← flush_each w m s
  some (t, effects ++ more)

no_waiters : List Waiter → Bool
no_waiters [] = true
no_waiters (_ ∷ _) = false

-- The sessions that have waiters, but are not in the snapshot of the attachments.
unfoldable pub waiter_sessions : Map Clients → Waiters → Map Clients
unfolding no_waiters
waiter_sessions sessions [] = []
waiter_sessions sessions ((id, ws) ∷ m) =
    let rest = waiter_sessions sessions m in
    if no_waiters ws
    then rest
    else elim (lookup id sessions) [ none ↦ (id, []) ∷ rest | some _ ↦ rest ]

unfoldable pub flush_output : World → State → Outcome
unfolding flush_each waiter_sessions
flush_output w st = do
  (s, effects) ← flush_each w st.daemon.attachments st
  (t, more) ← flush_each w (waiter_sessions st.daemon.attachments s.waiters) s
  some (t, effects ++ more)

-- `singleClient == "" && len(multiClients) == 0`.
nobody : Clients → Bool
nobody [] = true
nobody ((client, _) ∷ []) = bytes_eq client []
nobody (_ ∷ _ ∷ _) = false

unfoldable pub flush_session_output : World → Bytes → State → Outcome
unfolding flush_output flush_one nobody
flush_session_output w id st = elim (lookup id st.daemon.attachments) [
  | none ↦ flush_output w st
  | some cs ↦ let all = flush_output w st in if nobody cs then all else flush_one w id cs st
]
