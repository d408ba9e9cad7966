-- ===== src/Daemon/Restart/ColdRestore.antt =====
-- The commands of a session, from the writer of one daemon to the tracker of the next.
use wmux.Prelude.{
  ℕ, ◌<◌, ◌≡◌, refl, ap, ◌∙◌, inr, false, List, [], ◌∷◌, ◌++◌, Option, none, some, Bytes, Map,
  lookup, insert, last,
}
use wmux.Prelude.Every.{All}
use wmux.Lifecycle.{SessionState, Tracker, idle}
use wmux.Lifecycle.Runs.{orphans, restore-new_tracker}
use wmux.Lifecycle.Service.{Service, restore_session}
use wmux.Platform.Commands.{
  File, Writer, new_writer, ReadResult, not_exist, contents, saves, file_of, Op, closes, ends, run,
  load, load_from,
}
use wmux.Platform.Commands.Disk.{states, memory, ReadsBack}
use wmux.Platform.Commands.Loads.{run-latest}
use wmux.Daemon.Restart.{restore_file, restore_loaded, restore_commands_for_session}

abbrev found_at : Option Bytes → ReadResult
found_at none = not_exist
found_at (some text) = contents text

-- What a read of the path finds on the disk.
abbrev pub read_path : Bytes → Map Bytes → ReadResult
read_path path disk = found_at (lookup path disk)

load-found_at :
    (unmarshal : Bytes → Option File) (o : Option Bytes)
    → load unmarshal (found_at o)
      ≡ elim o [ none ↦ load unmarshal not_exist | some t ↦ load unmarshal (contents t) ]
load-found_at unmarshal none = refl
load-found_at unmarshal (some t) = refl

load-read_path :
    (unmarshal : Bytes → Option File) (path : Bytes) (disk : Map Bytes)
    → load unmarshal (read_path path disk) ≡ load_from unmarshal path disk
unfolding load_from
load-read_path unmarshal path disk = load-found_at unmarshal (lookup path disk)

-- The tracker of a session with the state, in a service with the limit.
abbrev pub restored : ℕ → ℕ → SessionState → Tracker
restored max now s = record {
  state = idle;
  current = none;
  history = last max (s.history ++ orphans now s.in_flight);
  max_history = max;
}

-- A file that has been saved is not taken for one that is missing.
loaded-restored :
    (unmarshal : Bytes → Option File) (read : ReadResult) (id : Bytes) (now saved : ℕ)
    (s : SessionState) (svc : Service)
    → load unmarshal read ≡ (file_of id saved s, none)
    → lookup id svc.trackers ≡ none
    → 0 < svc.max_history
    → restore_commands_for_session unmarshal read id now (some svc) ≡ (
      some (record svc { trackers = insert id (restored svc.max_history now s) svc.trackers }),
      none,
    )
unfolding restore_commands_for_session restore_loaded restore_file restore_session
loaded-restored unmarshal read id now saved s svc e absent positive =
    ap (λ r. (some (restore_loaded id now svc r).0, (restore_loaded id now svc r).1)) e
    ∙ rw (restore_session, absent)
        (ap (λ t. (some (record svc { trackers = insert id t svc.trackers }), none))
          (restore-new_tracker svc.max_history s now positive))

-- For a writer of commands that starts over a disk without the file, and states whose files can be read
-- back: whatever the calls of the writer and the rounds of its loop have been while the loop runs, if
-- the writer is closed and its last write goes well, then the next daemon, whose service has the
-- session not yet and keeps at least one command, restores it without an error, and its tracker is idle
-- and holds the last commands of the state that was given last, with the one that was in flight closed
-- as an orphan behind them. The rest of the service stays.
pub restore_commands_for_session-run :
    (marshal : File → Option Bytes) (unmarshal : Bytes → Option File) (path sess : Bytes)
    (w : Writer) (disk : Map Bytes)
    → new_writer path sess ≡ inr w
    → lookup path disk ≡ none
    → (os : List Op) (s : SessionState) (closed_at now : ℕ) (svc : Service)
    → All (ReadsBack marshal unmarshal path sess) (states os)
    → (run marshal os (w, disk)).0.stopped ≡ false
    → (memory os (false, none)).1 ≡ some s
    → lookup sess svc.trackers ≡ none
    → 0 < svc.max_history
    → restore_commands_for_session unmarshal
        (read_path path
          (run marshal (closes ∷ ends closed_at saves ∷ []) (run marshal os (w, disk))).1)
        sess
        now
        (some svc)
      ≡ (
        some (record svc { trackers = insert sess (restored svc.max_history now s) svc.trackers }),
        none,
      )
restore_commands_for_session-run marshal unmarshal path sess w disk made absent os s closed_at now
      svc back running last_state fresh positive =
    let (_, _, loads) =
      run-latest marshal unmarshal path sess w disk made absent os s closed_at back running
        last_state in
    loaded-restored unmarshal _ sess now closed_at s svc (load-read_path unmarshal path _ ∙ loads)
      fresh positive
