-- ===== src/Lifecycle/Spec.antt =====
-- The abstract view of a tracker: the command in flight, and the log of all commands ever closed.
use wmux.Prelude.{◌≡◌, refl, append_assoc, List, [], ◌∷◌, ◌++◌, Option, none, some}
use wmux.Lifecycle.{
  State, command_running, Command, EventKind, prompt_shown, command_started, command_finished,
  Event,
}

-- `d` is the closed form of `c`.
pub record Closes (c d : Command) : Type 0 where
  pub started_at : d.started_at ≡ c.started_at
  pub start_row : d.start_row ≡ c.start_row

abbrev pub Finishes : Option Command → Option Command → Type 0
Finishes (some c) (some d) = Closes c d
Finishes _ _ = ⊥

-- What one event may do to the command in flight.
abbrev pub Move : EventKind → Option Command → Option Command → Option Command → Type 0
Move prompt_shown before e after = (before ≡ none) × (e ≡ none) × (after ≡ none)
Move command_started before e after =
    (before ≡ none) × (e ≡ after) × ((c : Command) × (after ≡ some c))
Move command_finished before e after = Finishes before e × (after ≡ none)

-- `Trace a es b`: the events `es` lead from `a` in flight to `b` in flight. So starts and finishes
-- alternate, each finish closes the command that was started, and prompts come between commands.
abbrev pub Trace : Option Command → List Event → Option Command → Type 0
Trace a [] b = a ≡ b
Trace a (e ∷ es) b = (m : Option Command) × Move e.kind a e.command m × Trace m es b

pub Trace-append :
    (a b c : Option Command) (es fs : List Event)
    → Trace a es b
    → Trace b fs c
    → Trace a (es ++ fs) c
Trace-append a b c [] fs p q = rw p q
Trace-append a b c (e ∷ es) fs (m, mv, p) q = (m, mv, Trace-append m b c es fs p q)

abbrev pub closed_by : EventKind → Option Command → List Command
closed_by command_finished (some c) = c ∷ []
closed_by _ _ = []

-- The commands that the events close, in order.
abbrev pub closed : List Event → List Command
closed [] = []
closed (e ∷ es) = closed_by e.kind e.command ++ closed es

pub closed-append : (es fs : List Event) → closed (es ++ fs) ≡ closed es ++ closed fs
closed-append [] fs = refl
closed-append (e ∷ es) fs = rw (closed-append es fs, append_assoc)

-- A command is in flight exactly while the state is `command_running`.
abbrev pub Matched : State → Option Command → Type 0
Matched command_running (some c) = Unit
Matched command_running none = ⊥
Matched _ (some c) = ⊥
Matched _ none = Unit
