-- ===== src/Lifecycle/Service.antt =====
-- internal/cmdlifecycle/service.go and options.go: `Service`, a tracker for each session. The lock
-- makes each method one step. What a call hands to the event handler and to `repo.Save` is part of
-- its result; whether a handler is set is the field `on_event`. A repository, the clock and the
-- handler are the caller's. Each session owns its tracker, so a map of values models the pointers.
use mathlib.Core.Option
use wmux.Prelude.{
  ℕ, zero, suc, ◌==◌, ◌||◌, if◌then◌else◌, Bool, true, false, List, [], ◌∷◌, Option, none, some,
  Bytes, Map, lookup, insert, delete, map,
}
use wmux.Prelude.Int.{ℤ, pos, negsuc}
use wmux.Lifecycle.{
  Tracker, Event, EventKind, command_finished, SessionState, handle, new_tracker, snapshot, restore,
}

pub data Error : Type 0 where
  session_not_registered session_exists : Error

pub record Service : Type 0 where
  pub trackers : Map Tracker
  pub on_event : Bool
  pub max_history : ℕ

abbrev pub default_max_history : ℕ
default_max_history = 500

abbrev pub ServiceOption : Type 0
ServiceOption = Service → Service

-- Non-positive values are ignored.
unfoldable pub with_max_history : ℤ → ServiceOption
with_max_history (pos zero) s = s
with_max_history (pos (suc n)) s = record s { max_history = suc n }
with_max_history (negsuc n) s = s

unfoldable pub apply_options : List ServiceOption → Service → Service
apply_options [] s = s
apply_options (o ∷ os) s = apply_options os (o s)

unfoldable pub new_service : List ServiceOption → Service
unfolding apply_options
new_service options =
    apply_options options
      (record { trackers = []; on_event = false; max_history = default_max_history })

-- `OnEvent`: whether the handler is not nil.
unfoldable pub on_event : Bool → Service → Service
on_event set s = record s { on_event = set }

unfoldable pub register : Bytes → Service → Service × Option Error
register id s = elim (lookup id s.trackers) [
  | some _ ↦ (s, some session_exists)
  | none ↦ (record s { trackers = insert id (new_tracker s.max_history) s.trackers }, none)
]

unfoldable pub unregister : Bytes → Service → Service
unregister id s = record s { trackers = delete id s.trackers }

-- What one call gives to the handler and to the repository.
pub record Effects : Type 0 where
  pub events : List (Bytes × Event)
  pub saves : List (Bytes × SessionState)

abbrev pub no_effects : Effects
no_effects = record { events = []; saves = [] }

is_finished : EventKind → Bool
is_finished command_finished = true
is_finished _ = false

unfoldable pub any_finished : List Event → Bool
unfolding is_finished
any_finished [] = false
any_finished (e ∷ es) = is_finished e.kind || any_finished es

abbrev pub is_marker : ℕ → Bool
is_marker code = code == b'A' || code == b'B' || code == b'C' || code == b'D'

-- The dispatch of the events to the handler, and the save if one of them is a finish.
unfoldable pub dispatch : Bytes → Service → Tracker × List Event → Service × Effects × Option Error
dispatch id s (t, events) = (
  record s { trackers = insert id t s.trackers },
  record {
    events = if s.on_event then map (λ e. (id, e)) events else [];
    saves = if any_finished events then (id, snapshot t) ∷ [] else [];
  },
  none,
)

unfoldable pub handle_osc :
    Bytes → ℕ → ℤ → ℤ → (ℕ → ℕ) → Service → Option (Service × Effects × Option Error)
handle_osc id code exit row now s = elim (lookup id s.trackers) [
  | none ↦ some (s, no_effects, some session_not_registered)
  | some t ↦
      if is_marker code
      then Option.map (dispatch id s) (handle code exit row now t)
      else some (s, no_effects, none)
]

unfoldable pub snapshot_of : Bytes → Service → Option SessionState
snapshot_of id s = Option.map snapshot (lookup id s.trackers)

unfoldable pub restore_session : Bytes → SessionState → ℕ → Service → Service × Option Error
restore_session id state now s = elim (lookup id s.trackers) [
  | some _ ↦ (s, some session_exists)
  | none ↦ (
    record s { trackers = insert id (restore state now (new_tracker s.max_history)) s.trackers },
    none,
  )
]
