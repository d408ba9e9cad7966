-- ===== src/Daemon/CmdRepository.antt =====
-- internal/daemon/cmdrepository.go: a writer of commands for each session. `Writer.Close` waits for
-- the last round of the writer, which stands beside it here.
use wmux.Prelude.{
  ℕ, not, if◌then◌else◌, Bool, inl, inr, [], ◌∷◌, Option, none, some, Bytes, Map, lookup, insert,
  delete,
}
use wmux.Lifecycle.{SessionState}
use wmux.Platform.Commands.{File, Error, Writer, Outcome, new_writer, update, close, end}

pub record CmdRepository : Type 0 where
  pub writers : Map Writer
  pub enabled : Bool

unfoldable pub new_cmd_repository : Bool → CmdRepository
new_cmd_repository cold_restore_enabled = record { writers = []; enabled = cold_restore_enabled }

open_new : Bytes → Bytes → CmdRepository → CmdRepository × Option Error
open_new sess_id path r = elim (new_writer path sess_id) [
  | inl e ↦ (r, some e)
  | inr w ↦ (record r { writers = insert sess_id w r.writers }, none)
]

-- `Open`.
unfoldable pub open_writer : Bytes → Bytes → CmdRepository → CmdRepository × Option Error
unfolding open_new
open_writer sess_id path r =
    if not r.enabled
    then (r, none)
    else elim (lookup sess_id r.writers) [ some w ↦ (r, none) | none ↦ open_new sess_id path r ]

-- `Writer.Close` to its end: nothing if it has been closed before.
unfoldable pub close_writer : (File → Option Bytes) → ℕ → Outcome → Writer → Map Bytes → Map Bytes
close_writer marshal now o w disk = if w.closed then disk else (end marshal now o (close w, disk)).1

-- `Close` of a session.
unfoldable pub close_session :
    (File → Option Bytes)
    → ℕ
    → Outcome
    → Bytes
    → CmdRepository × Map Bytes
    → CmdRepository × Map Bytes
unfolding close_writer
close_session marshal now o sess_id (r, disk) = elim (lookup sess_id r.writers) [
  | none ↦ (r, disk)
  | some w ↦ (record r { writers = delete sess_id r.writers }, close_writer marshal now o w disk)
]

close_writers : (File → Option Bytes) → ℕ → (Bytes → Outcome) → Map Writer → Map Bytes → Map Bytes
unfolding close_writer
close_writers marshal now o [] disk = disk
close_writers marshal now o ((id, w) ∷ ws) disk =
    close_writers marshal now o ws (close_writer marshal now (o id) w disk)

-- `CloseAll`, with an outcome for each session.
unfoldable pub close_all :
    (File → Option Bytes)
    → ℕ
    → (Bytes → Outcome)
    → CmdRepository × Map Bytes
    → CmdRepository × Map Bytes
unfolding close_writers
close_all marshal now o (r, disk) =
    (record r { writers = [] }, close_writers marshal now o r.writers disk)

-- `Save`.
unfoldable pub save : Bytes → SessionState → CmdRepository → CmdRepository
save sess_id s r = if not r.enabled then r else elim (lookup sess_id r.writers) [
  | none ↦ r
  | some w ↦ record r { writers = insert sess_id (update s w) r.writers }
]
