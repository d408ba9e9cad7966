-- ===== src/Examples/Restart.antt =====
-- The restart of a daemon on concrete inputs.
use wmux.Prelude.{
  ℕ, ◌<◌, ◌≡◌, refl, true, false, List, [], ◌∷◌, inr, Option, none, some, Bytes, codes, bytes_eq,
  if◌then◌else◌, Map, lookup, insert, arith, ◌>>=◌,
}
use wmux.Prelude.Int.{pos}
use wmux.Prelude.Keys.{Distinct}
use wmux.Lifecycle.{SessionState}
use wmux.Lifecycle.Service.{Service}
use wmux.Platform.SessionDirs.{Metadata, Dir, WriteResult, writes, cuts, meta_file_name}
use wmux.Platform.Commands.{
  File, Writer, new_writer, saves, file_of, Op, updates, closes, ends, run, step, update,
}
use wmux.Daemon.CmdRepository.{new_cmd_repository, open_writer}
use wmux.Daemon.Restart.{
  reconcile_orphans, restore_commands_for_session, Restored, restore_command_histories_at_startup,
}
use wmux.Daemon.Restart.Settled.{exited, Reconciled, Again}
use wmux.Daemon.Restart.Reconciled.{reconcile_orphans-Reconciled}
use wmux.Daemon.Restart.ColdRestore.{read_path, restored, restore_commands_for_session-run}

abbrev live : Metadata
live = record {
  session_id = codes "s";
  shell = codes "sh";
  cwd = [];
  cols = pos 80;
  rows = pos 24;
  started_at = 1;
  ended_at = none;
  exit_code = none;
}

-- The text holds the time of an exit that was reconciled, or nothing.
abbrev parse : Bytes → Option Metadata
parse [] = some live
parse (t ∷ []) = some (exited t live)
parse (t ∷ s ∷ rest) = none

abbrev print : Metadata → Option Bytes
print m = elim m.ended_at [ none ↦ some [] | some t ↦ some (t ∷ []) ]

print-parse :
    (text : Bytes) (m : Metadata)
    → parse text ≡ some m
    → (t : ℕ) → (print (exited t m) >>= parse) ≡ some (exited t m)
print-parse [] m e t = cc
print-parse (s ∷ []) m e t = cc
print-parse (s ∷ r ∷ rest) m e t = cc

abbrev dir : Bytes → Dir
dir text = record {
  is_dir = true;
  readable = true;
  files = record { name = meta_file_name; is_dir = false; stat = true; content = text } ∷ [];
}

-- An orphan, a session that ended at 4, another orphan, and broken metadata.
abbrev base : Map Dir
base =
    (codes "a", dir [])
    ∷ (codes "b", dir (4 ∷ []))
    ∷ (codes "c", dir [])
    ∷ (codes "d", dir (0 ∷ 0 ∷ []))
    ∷ []

-- The write of "a" goes well; that of "c" is cut off behind its truncation.
abbrev wrote : Bytes → WriteResult
wrote p = if bytes_eq p (codes "c") then cuts (some (0 ∷ 0 ∷ [])) else writes

reconciles :
    reconcile_orphans parse print wrote (λ p. 9) (some base)
    ≡ inr (
      (codes "a", dir (9 ∷ []))
          ∷ (codes "b", dir (4 ∷ []))
          ∷ (codes "c", dir (0 ∷ 0 ∷ []))
          ∷ (codes "d", dir (0 ∷ 0 ∷ []))
          ∷ [],
      1,
    )
unfolding reconcile_orphans bytes_eq lookup insert
reconciles = refl

base-Distinct : Distinct base
unfolding lookup bytes_eq
base-Distinct = (refl, (refl, (refl, (refl, tt))))

reconcile_orphans-Reconciled_example :
    (s : Map Dir) × (n : ℕ) × (r : Map Dir) × (m : ℕ) × (reconcile_orphans parse print wrote
        (λ p. 9)
        (some base)
      ≡ inr (s, n))
    × Reconciled parse wrote (λ p. 9) base s n
    × (reconcile_orphans parse print (λ p. writes) (λ p. 12) (some s) ≡ inr (r, m))
    × Again parse wrote base s r m
reconcile_orphans-Reconciled_example =
    reconcile_orphans-Reconciled parse print wrote (λ p. writes) (λ p. 9) (λ p. 12) base print-parse
      base-Distinct

-- A session with a command that has finished and one in flight: the text holds the time alone.
abbrev given : SessionState
given = record {
  history =
      record {
        started_at = 1;
        ended_at = 2;
        exit_code = pos 0;
        start_row = pos 3;
        end_row = pos 4;
        orphan = false;
        orphan_reason = [];
      }
      ∷ [];
  in_flight = some (record {
    started_at = 3;
    ended_at = 0;
    exit_code = pos 0;
    start_row = pos 5;
    end_row = pos 0;
    orphan = false;
    orphan_reason = [];
  });
}

abbrev marshal_time : File → Option Bytes
marshal_time f = some (f.saved_at ∷ [])

abbrev unmarshal_time : Bytes → Option File
unmarshal_time [] = none
unmarshal_time (t ∷ rest) = some (file_of (codes "s") t given)

abbrev writer : Writer
writer = record {
  path = codes "c.json";
  sess_id = codes "s";
  pending = record { history = []; in_flight = none };
  has_state = false;
  closed = false;
  notified = false;
  armed = false;
  stopped = false;
}

writer_made : new_writer (codes "c.json") (codes "s") ≡ inr writer
unfolding new_writer
writer_made = refl

no_file : lookup {V = Bytes} (codes "c.json") [] ≡ none
unfolding lookup
no_file = refl

abbrev calls : List Op
calls = updates given ∷ []

still_running : (run marshal_time calls (writer, [])).0.stopped ≡ false
unfolding run step update
still_running = refl

abbrev service : Service
service = record { trackers = []; on_event = true; max_history = 5 }

not_there : lookup (codes "s") service.trackers ≡ none
unfolding lookup
not_there = refl

positive : 0 < service.max_history
positive = omega arith

restore_commands_for_session-run_example :
    restore_commands_for_session unmarshal_time
      (read_path
        (codes "c.json")
        (run marshal_time (closes ∷ ends 8 saves ∷ []) (run marshal_time calls (writer, []))).1)
      (codes "s")
      9
      (some service)
    ≡ (
      some (record service {
        trackers = insert (codes "s") (restored service.max_history 9 given) service.trackers;
      }),
      none,
    )
restore_commands_for_session-run_example =
    restore_commands_for_session-run marshal_time unmarshal_time (codes "c.json") (codes "s") writer
      [] writer_made no_file calls given 8 9 service (λ now. refl, tt) still_running refl not_there
      positive

-- The start of a daemon without files of commands: counters and writers for the directories alone.
abbrev started : Restored
started = record {
  cmd_svc = some service;
  line_counters = [];
  cmd_repo = some (new_cmd_repository true);
}

starts :
    restore_command_histories_at_startup unmarshal_time
      (λ id. read_path id [])
      (λ id. codes "c.json")
      (λ id. 9)
      (some ((codes "s", true) ∷ (codes "f", false) ∷ []))
      started
    ≡ record {
      cmd_svc = some service;
      line_counters = (codes "s", 0) ∷ [];
      cmd_repo = some (record { writers = (codes "s", writer) ∷ []; enabled = true });
    }
unfolding restore_command_histories_at_startup new_cmd_repository open_writer lookup insert bytes_eq
    new_writer
starts = refl
