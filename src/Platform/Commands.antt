-- ===== src/Platform/Commands.antt =====
-- internal/platform/commands: the writer that keeps commands.json of a session, and `Load`. The
-- disk is a map from paths; what `json` and the system do are arguments.
pub mod Disk
pub mod Saved
pub mod Loads
use wmux.Prelude.{
  ℕ, ltb, not, ◌&&◌, if◌then◌else◌, Bool, true, false, ◌⊎◌, inl, inr, List, [], ◌∷◌, ◌++◌, Option,
  none, some, Bytes, codes, Map, lookup, insert, delete,
}
use wmux.Prelude.Int.{ℤ, pos, negsuc}
use wmux.Lifecycle.{Command, SessionState}

abbrev current_version : ℤ
current_version = pos 1

-- The schema of commands.json.
pub record File : Type 0 where
  pub version : ℤ
  pub session_id : Bytes
  pub saved_at : ℕ
  pub history : List Command
  pub in_flight : Option Command

abbrev pub zero_file : File
zero_file = record {
  version = pos 0;
  session_id = [];
  saved_at = 0;
  history = [];
  in_flight = none;
}

pub data Error : Type 0 where
  unsupported_version writer_closed read_failed parse_failed : Error
  empty_path empty_session_id marshal_failed write_tmp_failed rename_failed : Error

-- What os.ReadFile finds: no file, its bytes, or another failure.
pub data ReadResult : Type 0 where
  not_exist unreadable : ReadResult
  contents : Bytes → ReadResult

abbrev too_new : ℤ → Bool
too_new (pos n) = ltb 1 n
too_new (negsuc n) = false

-- The check of the version; a file that is too new is cut down to its version and session.
unfoldable pub check_version : File → File × Option Error
check_version f =
    if too_new f.version
    then (
      record zero_file { version = f.version; session_id = f.session_id },
      some unsupported_version,
    )
    else (f, none)

unfoldable pub load : (Bytes → Option File) → ReadResult → File × Option Error
unfolding check_version
load unmarshal not_exist = (zero_file, none)
load unmarshal unreadable = (zero_file, some read_failed)
load unmarshal (contents t) = elim (unmarshal t) [
  | none ↦ (zero_file, some parse_failed)
  | some f ↦ check_version f
]

-- `notified` is whether `notifyCh` holds its token, `armed` is `pending` in `run`, and `stopped`
-- is whether `doneCh` is closed.
pub record Writer : Type 0 where
  pub path : Bytes
  pub sess_id : Bytes
  pub pending : SessionState
  pub has_state : Bool
  pub closed : Bool
  pub notified : Bool
  pub armed : Bool
  pub stopped : Bool

abbrev no_state : SessionState
no_state = record { history = []; in_flight = none }

unfoldable pub new_writer : Bytes → Bytes → Error ⊎ Writer
new_writer [] sess_id = inl empty_path
new_writer (c ∷ path) [] = inl empty_session_id
new_writer (c ∷ path) (d ∷ sess_id) = inr (record {
  path = c ∷ path;
  sess_id = d ∷ sess_id;
  pending = no_state;
  has_state = false;
  closed = false;
  notified = false;
  armed = false;
  stopped = false;
})

unfoldable pub update : SessionState → Writer → Writer
update s w = if w.closed then w else record w { pending = s; has_state = true; notified = true }

-- What the system does on a save: the write of the temporary file fails and leaves it as it was, or
-- with other contents; the rename fails; or all goes well.
pub data Outcome : Type 0 where
  write_fails : Option Bytes → Outcome
  rename_fails saves : Outcome

abbrev pub tmp : Bytes → Bytes
tmp path = path ++ codes ".tmp"

unfoldable pub write_atomic : Outcome → Bytes → Bytes → Map Bytes → Map Bytes × Option Error
write_atomic (write_fails none) path text disk = (disk, some write_tmp_failed)
write_atomic (write_fails (some part)) path text disk =
    (insert (tmp path) part disk, some write_tmp_failed)
write_atomic rename_fails path text disk = (delete (tmp path) disk, some rename_failed)
write_atomic saves path text disk = (insert path text (delete (tmp path) disk), none)

abbrev pub file_of : Bytes → ℕ → SessionState → File
file_of sess_id now s = record {
  version = current_version;
  session_id = sess_id;
  saved_at = now;
  history = s.history;
  in_flight = s.in_flight;
}

-- `flushOnce`.
unfoldable pub flush_once :
    (File → Option Bytes) → ℕ → Outcome → Writer → Map Bytes → Map Bytes × Option Error
unfolding write_atomic
flush_once marshal now o w disk =
    if w.has_state
    then elim (marshal (file_of w.sess_id now w.pending)) [
      | none ↦ (disk, some marshal_failed)
      | some text ↦ write_atomic o w.path text disk
    ]
    else (disk, none)

-- Calls of the writer, and rounds of the select: its notification, its timer, and its end behind a
-- close. A round whose case is not ready does not happen.
pub data Op : Type 0 where
  updates : SessionState → Op
  flushes : ℕ → Outcome → Op
  closes notices : Op
  fires ends : ℕ → Outcome → Op

-- `Flush`, with its error.
unfoldable pub flush :
    (File → Option Bytes) → ℕ → Outcome → Writer × Map Bytes → (Writer × Map Bytes) × Option Error
unfolding flush_once
flush marshal now o (w, disk) =
    if w.stopped
    then ((w, disk), some writer_closed)
    else let (after, e) = flush_once marshal now o w disk in
      ((record w { armed = false }, after), e)

-- `Close`, up to the signal that it gives.
unfoldable pub close : Writer → Writer
close w = record w { closed = true }

-- The round that takes the notification, and arms the timer.
unfoldable pub notice : Writer → Writer
notice w = if w.notified && not w.stopped then record w { notified = false; armed = true } else w

-- The round in which the timer fires.
unfoldable pub fire : (File → Option Bytes) → ℕ → Outcome → Writer × Map Bytes → Writer × Map Bytes
unfolding flush_once
fire marshal now o (w, disk) =
    if w.armed && not w.stopped
    then (record w { armed = false }, (flush_once marshal now o w disk).0)
    else (w, disk)

-- The last round, behind a close.
unfoldable pub end : (File → Option Bytes) → ℕ → Outcome → Writer × Map Bytes → Writer × Map Bytes
unfolding flush_once
end marshal now o (w, disk) =
    if w.closed && not w.stopped
    then (record w { stopped = true; armed = false }, (flush_once marshal now o w disk).0)
    else (w, disk)

unfoldable pub step : (File → Option Bytes) → Op → Writer × Map Bytes → Writer × Map Bytes
unfolding update flush close notice fire end
step marshal (updates s) (w, disk) = (update s w, disk)
step marshal (flushes now o) st = (flush marshal now o st).0
step marshal closes (w, disk) = (close w, disk)
step marshal notices (w, disk) = (notice w, disk)
step marshal (fires now o) st = fire marshal now o st
step marshal (ends now o) st = end marshal now o st

unfoldable pub run : (File → Option Bytes) → List Op → Writer × Map Bytes → Writer × Map Bytes
unfolding step
run marshal [] st = st
run marshal (op ∷ os) st = run marshal os (step marshal op st)

-- `Load` from the disk.
unfoldable pub load_from : (Bytes → Option File) → Bytes → Map Bytes → File × Option Error
unfolding load
load_from unmarshal path disk = elim (lookup path disk) [
  | none ↦ load unmarshal not_exist
  | some t ↦ load unmarshal (contents t)
]
