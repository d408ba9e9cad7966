-- ===== src/Lifecycle.antt =====
-- internal/cmdlifecycle/entity.go, events.go and the tracker of service.go: the state machine that
-- OSC 133 markers drive, one for each session. `none` is the nil dereference of `t.current`.
-- A time is a number of nanoseconds, 0 for the zero `time.Time`. `now i` is what the (i+1)-th call
-- of the clock returns within one call of `handle`.
use wmux.Prelude.{
  ℕ, ◌==◌, if◌then◌else◌, Bool, true, false, List, [], ◌∷◌, ◌++◌, Option, none, some, Bytes, codes,
  length, drop, ◌>>=◌,
}
pub mod Spec
pub mod Refines
pub mod Runs
pub mod Service
pub mod Sessions
use mathlib.Core.Option
use wmux.Prelude.Int.{ℤ, pos, negsuc}

pub data State : Type 0 where
  idle prompt_shown user_typing command_running : State

pub record Command : Type 0 where
  pub started_at : ℕ
  pub ended_at : ℕ
  pub exit_code : ℤ
  pub start_row : ℤ
  pub end_row : ℤ
  pub orphan : Bool
  pub orphan_reason : Bytes

pub record SessionState : Type 0 where
  pub history : List Command
  pub in_flight : Option Command

abbrev pub orphan_reason_missing_d : Bytes
orphan_reason_missing_d = codes "missing_d_marker"

abbrev pub orphan_reason_daemon_restart : Bytes
orphan_reason_daemon_restart = codes "daemon_restart"

pub data EventKind : Type 0 where
  prompt_shown command_started command_finished : EventKind

pub record Event : Type 0 where
  pub kind : EventKind
  pub command : Option Command
  pub row : ℤ

pub record Tracker : Type 0 where
  pub state : State
  pub current : Option Command
  pub history : List Command
  pub max_history : ℕ

unfoldable pub new_tracker : ℕ → Tracker
new_tracker max = record { state = idle; current = none; history = []; max_history = max }

-- At capacity the oldest entry makes room. (`max_history` is at least 1: see `Service`.)
unfoldable pub append_history : Command → Tracker → Tracker
append_history c t =
    if length t.history == t.max_history
    then record t { history = drop 1 t.history ++ c ∷ [] }
    else record t { history = t.history ++ c ∷ [] }

unfoldable pub open_command : ℕ → ℤ → Tracker → Tracker
open_command now row t = record t {
  current = some (record {
    started_at = now;
    ended_at = 0;
    exit_code = pos 0;
    start_row = row;
    end_row = pos 0;
    orphan = false;
    orphan_reason = [];
  });
}

abbrev pub as_orphan : ℕ → ℤ → Bytes → Command → Command
as_orphan now row reason c = record c {
  ended_at = now;
  end_row = row;
  exit_code = negsuc 0;
  orphan = true;
  orphan_reason = reason;
}

abbrev pub finished : Command → ℤ → Event
finished c row = record { kind = command_finished; command = some c; row = row }

-- Appends the closed command and leaves the tracker idle.
abbrev pub file_away : Command → Tracker → Tracker
file_away c t = record (append_history c t) { current = none; state = idle }

unfoldable pub close_orphan : ℕ → ℤ → Bytes → Tracker → Option (Tracker × Event)
close_orphan now row reason t = elim t.current [
  | none ↦ none
  | some c ↦
      some (file_away (as_orphan now row reason c) t, finished (as_orphan now row reason c) row)
]

-- `if t.state == StateCommandRunning { ... }`, the first statement for A, B and C.
unfoldable pub close_if_running : ℕ → ℤ → Tracker → Option (Tracker × List Event)
unfolding close_orphan
close_if_running now row t = elim t.state [
  | command_running ↦ do
    (t', ev) ← close_orphan now row orphan_reason_missing_d t
    some (t', ev ∷ [])
  | _ ↦ some (t, [])
]

-- The reading of the clock that `openCommandLocked` gets: the second, if an orphan was closed.
abbrev pub open_time : (ℕ → ℕ) → List Event → ℕ
open_time now [] = now 0
open_time now (_ ∷ _) = now 1

unfoldable pub on_a : ℤ → Tracker × List Event → Tracker × List Event
on_a row (t, events) = elim t.state [
  | prompt_shown ↦ (t, events)
  | _ ↦ (
    record t { state = prompt_shown },
    events ++ record { kind = prompt_shown; command = none; row = row } ∷ [],
  )
]

unfoldable pub on_b : Tracker × List Event → Tracker × List Event
on_b (t, events) = (record t { state = user_typing }, events)

unfoldable pub on_c : (ℕ → ℕ) → ℤ → Tracker × List Event → Tracker × List Event
unfolding open_command
on_c now row (t, events) =
    let opened = open_command (open_time now events) row t in
    (
      record opened { state = command_running },
      events ++ record { kind = command_started; command = opened.current; row = row } ∷ [],
    )

abbrev pub as_exited : ℕ → ℤ → ℤ → Command → Command
as_exited now exit row c = record c {
  ended_at = now;
  end_row = row;
  exit_code = exit;
  orphan = false;
}

close_current : ℕ → ℤ → ℤ → Tracker → Option Command → Tracker × List Event
close_current now exit row t none = (t, [])
close_current now exit row t (some c) =
    (file_away (as_exited now exit row c) t, finished (as_exited now exit row c) row ∷ [])

unfoldable pub on_d : ℕ → ℤ → ℤ → Tracker → Tracker × List Event
unfolding close_current
on_d now exit row t = elim t.state [
  | command_running ↦ close_current now exit row t t.current
  | _ ↦ (t, [])
]

unfoldable pub handle : ℕ → ℤ → ℤ → (ℕ → ℕ) → Tracker → Option (Tracker × List Event)
handle code exit row now t =
    if code == b'A'
    then Option.map (on_a row) (close_if_running (now 0) row t)
    else if code == b'B'
    then Option.map on_b (close_if_running (now 0) row t)
    else if code == b'C'
    then Option.map (on_c now row) (close_if_running (now 0) row t)
    else if code == b'D'
    then some (on_d (now 0) exit row t)
    else some (t, [])

unfoldable pub snapshot : Tracker → SessionState
snapshot t = record { history = t.history; in_flight = t.current }

unfoldable pub append_all : List Command → Tracker → Tracker
append_all [] t = t
append_all (c ∷ cs) t = append_all cs (append_history c t)

abbrev pub as_restart_orphan : ℕ → Command → Command
as_restart_orphan now c = record c {
  end_row = c.start_row;
  ended_at = now;
  exit_code = negsuc 0;
  orphan = true;
  orphan_reason = orphan_reason_daemon_restart;
}

unfoldable pub append_in_flight : ℕ → Option Command → Tracker → Tracker
append_in_flight now none t = t
append_in_flight now (some c) t = append_history (as_restart_orphan now c) t

unfoldable pub restore : SessionState → ℕ → Tracker → Tracker
unfolding append_all append_in_flight
restore s now t = record (append_in_flight now s.in_flight (append_all s.history t)) {
  state = idle;
  current = none;
}
