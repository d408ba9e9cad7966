-- ===== src/Daemon/Restart.antt =====
-- internal/daemon/reconcile.go, and restoreCommandHistoriesAtStartup of service.go: what a daemon makes
-- of the files of an earlier one. `json`, the clock, and what the system does on a read or a write are
-- arguments; the directories are those of Platform/SessionDirs.antt.
pub mod Settled
pub mod Updates
pub mod Rounds
pub mod Reconciled
pub mod ColdRestore
use mathlib.Core.Option
use wmux.Prelude.{
  ℕ, zero, suc, if◌then◌else◌, Bool, true, false, ◌⊎◌, inl, inr, List, [], ◌∷◌, Option, none, some,
  Bytes, Map, lookup, insert,
}
use wmux.Prelude.Int.{pos, negsuc}
use wmux.Lifecycle.Service as Lifecycle
use wmux.Lifecycle.Service.{Service, restore_session}
use wmux.Platform.SessionDirs.{
  Metadata, Dir, WriteResult, SessionDirInfo, update_metadata_exit, list_session_dirs,
}
use wmux.Platform.SessionDirs as SessionDirs
use wmux.Platform.Commands.{File, ReadResult, unsupported_version, load}
use wmux.Platform.Commands as Commands
use wmux.Daemon.CmdRepository.{CmdRepository, open_writer}

-- One round of the loop: the directories, and how many have been reconciled. `wrote` is what the write
-- of the metadata of a directory does; one that fails may have changed the file.
unfoldable pub reconcile_dir :
    (Bytes → Option Metadata)
    → (Metadata → Option Bytes)
    → (Bytes → WriteResult)
    → (Bytes → ℕ)
    → SessionDirInfo
    → Map Dir × ℕ
    → Map Dir × ℕ
unfolding update_metadata_exit
reconcile_dir unmarshal marshal wrote now d (tree, n) = elim d.ended_at [
  | some t ↦ (tree, n)
  | none ↦ elim (lookup d.path tree) [
    | none ↦ (tree, n)
    | some x ↦
        let (y, e) =
          update_metadata_exit unmarshal marshal (wrote d.path) (now d.path) (negsuc 0) x in
        (insert d.path y tree, elim e [ some _ ↦ n | none ↦ suc n ])
  ]
]

unfoldable pub reconcile_dirs :
    (Bytes → Option Metadata)
    → (Metadata → Option Bytes)
    → (Bytes → WriteResult)
    → (Bytes → ℕ)
    → List SessionDirInfo
    → Map Dir × ℕ
    → Map Dir × ℕ
unfolding reconcile_dir
reconcile_dirs unmarshal marshal wrote now [] st = st
reconcile_dirs unmarshal marshal wrote now (d ∷ ds) st =
    reconcile_dirs unmarshal marshal wrote now ds (reconcile_dir unmarshal marshal wrote now d st)

-- `ReconcileOrphans` of the data directory, if it can be listed.
unfoldable pub reconcile_orphans :
    (Bytes → Option Metadata)
    → (Metadata → Option Bytes)
    → (Bytes → WriteResult)
    → (Bytes → ℕ)
    → Option (Map Dir)
    → SessionDirs.Error ⊎ (Map Dir × ℕ)
unfolding list_session_dirs reconcile_dirs
reconcile_orphans unmarshal marshal wrote now none = inl SessionDirs.list_failed
reconcile_orphans unmarshal marshal wrote now (some tree) =
    elim (list_session_dirs unmarshal (some tree)) [
      | inl e ↦ inl e
      | inr ds ↦ inr (reconcile_dirs unmarshal marshal wrote now ds (tree, 0))
    ]

pub data RestoreError : Type 0 where
  not_loaded : Commands.Error → RestoreError
  rejected : Lifecycle.Error → RestoreError

abbrev is_empty : File → Bool
is_empty f = elim f.version [
  | pos (suc n) ↦ false
  | negsuc n ↦ false
  | pos zero ↦ elim f.history [
    | c ∷ cs ↦ false
    | [] ↦ elim f.in_flight [ none ↦ true | some c ↦ false ]
  ]
]

restore_file : Bytes → ℕ → File → Service → Service × Option RestoreError
unfolding restore_session
restore_file sess_id now f s =
    if is_empty f
    then (s, none)
    else let (after, e) =
        restore_session sess_id (record { history = f.history; in_flight = f.in_flight }) now s in
      (after, Option.map rejected e)

-- What is made of the result of `Load`.
restore_loaded : Bytes → ℕ → Service → File × Option Commands.Error → Service × Option RestoreError
unfolding restore_file
restore_loaded sess_id now s (f, none) = restore_file sess_id now f s
restore_loaded sess_id now s (f, some unsupported_version) = (s, none)
restore_loaded sess_id now s (f, some failure) = (s, some (not_loaded failure))

-- `RestoreCommandsForSession`; the result of the read is that of commands.json of the session. There
-- may be no service.
unfoldable pub restore_commands_for_session :
    (Bytes → Option File)
    → ReadResult
    → Bytes
    → ℕ
    → Option Service
    → Option Service × Option RestoreError
unfolding load restore_loaded
restore_commands_for_session unmarshal read sess_id now none = (none, none)
restore_commands_for_session unmarshal read sess_id now (some s) =
    let (after, e) = restore_loaded sess_id now s (load unmarshal read) in (some after, e)

-- What the start of the daemon fills: the service, the counters of lines, and the writers, if the
-- daemon has them.
pub record Restored : Type 0 where
  pub cmd_svc : Option Service
  pub line_counters : Map ℕ
  pub cmd_repo : Option CmdRepository

-- An entry of the data directory. `path_of` is the path of commands.json of a session.
unfoldable pub restore_entry :
    (Bytes → Option File)
    → (Bytes → ReadResult)
    → (Bytes → Bytes)
    → (Bytes → ℕ)
    → Bytes × Bool
    → Restored
    → Restored
unfolding restore_commands_for_session open_writer
restore_entry unmarshal reads path_of now (sess_id, is_dir) r =
    let (svc, e) =
      restore_commands_for_session unmarshal (reads sess_id) sess_id (now sess_id) r.cmd_svc in
    if is_dir
    then elim e [
      | some _ ↦ record r { cmd_svc = svc }
      | none ↦ record {
        cmd_svc = svc;
        line_counters = elim (lookup sess_id r.line_counters) [
          | some _ ↦ r.line_counters
          | none ↦ insert sess_id 0 r.line_counters
        ];
        cmd_repo = Option.map (λ o. (open_writer sess_id (path_of sess_id) o).0) r.cmd_repo;
      }
    ]
    else r

-- `restoreCommandHistoriesAtStartup`; there are no entries if they cannot be listed.
unfoldable pub restore_command_histories_at_startup :
    (Bytes → Option File)
    → (Bytes → ReadResult)
    → (Bytes → Bytes)
    → (Bytes → ℕ)
    → Option (List (Bytes × Bool))
    → Restored
    → Restored
unfolding restore_entry
restore_command_histories_at_startup unmarshal reads path_of now none r = r
restore_command_histories_at_startup unmarshal reads path_of now (some []) r = r
restore_command_histories_at_startup unmarshal reads path_of now (some (e ∷ es)) r =
    restore_command_histories_at_startup unmarshal reads path_of now (some es)
      (restore_entry unmarshal reads path_of now e r)
