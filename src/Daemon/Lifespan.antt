-- ===== src/Daemon/Lifespan.antt =====
-- The life of a session in internal/daemon/service.go: handleCreate, the callback that Start gives to
-- OnExit with persistSessionExit and closeRecording, handleRecord, handleStatus and publishCmdEvent.
-- What the files give is an argument: the scrollback writer that persistSessionCreate opens, if it
-- does, and the header of a recording. The repository of command histories is left out.
use wmux.Prelude.{
  ℕ, zero, suc, ◌-◌, ◌/◌, leb, if◌then◌else◌, Bool, true, false, List, [], ◌∷◌, Option, none, some,
  Bytes, bytes_eq, codes, Map, lookup, insert, delete, length,
}
use wmux.Prelude.Int.{ℤ, pos, negsuc}
use wmux.Session.Defs.{Session, CreateOptions, Error, Result, ok, err, Service}
use wmux.Session.Service.{create, get, list}
use wmux.Events.{Event, text, int, time, bool}
use wmux.Events.Names.{
  session_created, session_exited, command_prompt_shown, command_started, command_finished,
}
use wmux.Lifecycle
use wmux.Lifecycle.Service.{register, unregister}
use wmux.Platform.Scrollback
use wmux.Platform.Recording
use wmux.Daemon.Output.{State}
use wmux.Daemon.Waiters.{on_exit}

-- The daemon with its command service.
pub record Core : Type 0 where
  pub state : State
  pub commands : Lifecycle.Service.Service

pub data Reply : Type 0 where
  invalid_request : Reply
  failed : Error → Reply
  created : Session → Reply
  already_recording not_recording invalid_action no_recording_file : Reply
  recording : Bytes → Bool → Reply
  status : ℕ → ℕ → Reply

abbrev created_event : Bytes → Bytes → Session → Event
created_event id shell x = record {
  type = session_created;
  session_id = id;
  payload = (codes "shell", text shell) ∷ (codes "pid", int (pos x.pid)) ∷ [];
}

add_writer : Bytes → Option Scrollback.Writer → Map Scrollback.Writer → Map Scrollback.Writer
add_writer id none m = m
add_writer id (some w) m = insert id w m

created_in :
    Bytes
    → Bytes
    → Option Scrollback.Writer
    → Core
    → Service × Result Session
    → Core × Reply × List Event
unfolding add_writer
created_in id shell writer c (s, err e) = (
  record c { state = record c.state { daemon = record c.state.daemon { service = s } } },
  failed e,
  [],
)
created_in id shell writer c (s, ok x) = (
  record {
    state = record c.state {
      daemon = record c.state.daemon { service = s };
      scrollback_writers = add_writer id writer c.state.scrollback_writers;
      line_counters = insert id 0 c.state.line_counters;
    };
    commands = (register id c.commands).0;
  },
  created x,
  created_event id shell x ∷ [],
)

-- The request is the id and the options, and `spawn` the pid of the new process.
unfoldable pub handle_create :
    Option (Bytes × CreateOptions)
    → Option ℕ
    → ℕ
    → Option Scrollback.Writer
    → Core
    → Core × Reply × List Event
unfolding created_in
handle_create none spawn now writer c = (c, invalid_request, [])
handle_create (some (id, opts)) spawn now writer c =
    created_in id opts.shell writer c (create id opts spawn now c.state.daemon.service)

abbrev exited_event : Bytes → ℤ → Event
exited_event id code = record {
  type = session_exited;
  session_id = id;
  payload = (codes "exit_code", int code) ∷ [];
}

-- The callback of OnExit; `cold` is whether cold restore is on.
unfoldable pub exit_callback : Bool → Bytes → ℤ → Core → Core × List Event
exit_callback cold id code c = (
  record {
    state = record c.state {
      waiters = on_exit id code c.state.waiters;
      scrollback_writers =
          if cold then delete id c.state.scrollback_writers else c.state.scrollback_writers;
      recordings = delete id c.state.recordings;
      line_counters = delete id c.state.line_counters;
    };
    commands = unregister id c.commands;
  },
  exited_event id code ∷ [],
)

with_recordings : Map Recording.Writer → Core → Core
with_recordings m c = record c { state = record c.state { recordings = m } }

-- `header` is what NewWriter has written to the new file; `none` if there is no file.
record_found : Bytes → ℕ → Option Bytes → Core → Result Session → Core × Reply
unfolding with_recordings
record_found id max_size header c (err e) = (c, failed e)
record_found id max_size none c (ok x) = (c, no_recording_file)
record_found id max_size (some header) c (ok x) = (
  with_recordings (insert id (Recording.new_writer header max_size) c.state.recordings) c,
  recording id true,
)

record_start : Bytes → ℕ → Option Bytes → Core → Core × Reply
unfolding record_found
record_start id max_size header c = elim (lookup id c.state.recordings) [
  | some _ ↦ (c, already_recording)
  | none ↦ record_found id max_size header c (get id c.state.daemon.service)
]

record_stop : Bytes → Core → Core × Reply
unfolding with_recordings
record_stop id c = elim (lookup id c.state.recordings) [
  | none ↦ (c, not_recording)
  | some _ ↦ (with_recordings (delete id c.state.recordings) c, recording id false)
]

-- The request is the id and the action.
unfoldable pub handle_record : Option (Bytes × Bytes) → ℕ → Option Bytes → Core → Core × Reply
unfolding record_start record_stop
handle_record none max_size header c = (c, invalid_request)
handle_record (some (id, action)) max_size header c =
    if bytes_eq action (codes "start")
    then record_start id max_size header c
    else if bytes_eq action (codes "stop")
    then record_stop id c
    else (c, invalid_action)

-- The numbers of sessions and of clients; the version and the uptime are left out.
unfoldable pub handle_status : Core → Reply
handle_status c =
    status (length (list c.state.daemon.service)) (length c.state.daemon.client_session)

negative : ℕ → ℤ
negative zero = pos 0
negative (suc n) = negsuc n

-- `b.Sub(a).Milliseconds()`, which cuts towards 0.
abbrev milliseconds : ℕ → ℕ → ℤ
unfolding negative
milliseconds a b = if leb a b then pos ((b - a) / 1000000) else negative ((a - b) / 1000000)

orphan_reason : Bytes → List (Bytes × wmux.Events.Value)
orphan_reason [] = []
orphan_reason (c ∷ s) = (codes "orphan_reason", text (c ∷ s)) ∷ []

started_payload : Option Lifecycle.Command → List (Bytes × wmux.Events.Value)
started_payload none = []
started_payload (some c) =
    (codes "started_at", time c.started_at) ∷ (codes "start_row", int c.start_row) ∷ []

finished_payload : Option Lifecycle.Command → List (Bytes × wmux.Events.Value)
unfolding orphan_reason milliseconds
finished_payload none = []
finished_payload (some c) =
    (codes "started_at", time c.started_at)
    ∷ (codes "ended_at", time c.ended_at)
    ∷ (codes "exit_code", int c.exit_code)
    ∷ (codes "start_row", int c.start_row)
    ∷ (codes "end_row", int c.end_row)
    ∷ (codes "duration_ms", int (milliseconds c.started_at c.ended_at))
    ∷ (codes "orphan", bool c.orphan)
    ∷ orphan_reason c.orphan_reason

unfoldable pub publish_cmd_event : Bytes → Lifecycle.Event → Event
unfolding started_payload finished_payload
publish_cmd_event id e = elim e.kind [
  | Lifecycle.prompt_shown ↦ record {
    type = command_prompt_shown;
    session_id = id;
    payload = (codes "row", int e.row) ∷ [];
  }
  | Lifecycle.command_started ↦ record {
    type = command_started;
    session_id = id;
    payload = started_payload e.command;
  }
  | Lifecycle.command_finished ↦ record {
    type = command_finished;
    session_id = id;
    payload = finished_payload e.command;
  }
]
