-- ===== src/Lifecycle/Refines.antt =====
-- The tracker refines the abstract view.
use mathlib.Core.Option
use wmux.Prelude.{
  ℕ, ◌-◌, ◌<◌, ◌≡◌, refl, List, [], ◌∷◌, ◌++◌, Option, none, some, arith, Returns, last,
  last-concat_full, last-concat_room, length-last, append-nil,
}
use wmux.Prelude.Int.{ℤ}
use wmux.Lifecycle.{
  State, idle, user_typing, prompt_shown, command_running, Command, Event, Tracker, append_history,
  file_away, finished, close_orphan, close_if_running, on_a, on_b, on_c, on_d, handle, new_tracker,
}
use wmux.Lifecycle.Spec.{Closes, Trace, closed, Matched, Trace-append, closed-append}

-- `log` is every command closed so far; the history is its end.
pub record Inv (log : List Command) (t : Tracker) : Type 0 where
  pub matched : Matched t.state t.current
  pub kept : t.history ≡ last t.max_history log
  pub positive : 0 < t.max_history

pub new_tracker-Inv : (max : ℕ) → 0 < max → Inv [] (new_tracker max)
unfolding new_tracker
new_tracker-Inv max h = record {
  matched = tt;
  kept = let e : 0 - max ≡ 0 = omega arith in rw e;
  positive = h;
}

pub append_history-kept :
    (log : List Command) (t : Tracker) (c : Command)
    → 0 < t.max_history
    → t.history ≡ last t.max_history log
    → (append_history c t).history ≡ last t.max_history (log ++ c ∷ [])
unfolding append_history
append_history-kept log t c p h = ground (
  arith,
  length-last t.max_history log,
  last-concat_full t.max_history log c,
  last-concat_room t.max_history log c,
)

pub max-append_history :
    (c : Command) (t : Tracker) → (append_history c t).max_history ≡ t.max_history
unfolding append_history
max-append_history c t = ground arith

pub append_history-Inv :
    (log : List Command) (c : Command) (t : Tracker)
    → Inv log t
    → Inv (log ++ c ∷ []) (append_history c t)
append_history-Inv log c t v = record {
  matched = unfold append_history in ground arith;
  kept = rw max-append_history (append_history-kept log t c v.positive v.kept);
  positive = rw max-append_history v.positive;
}

-- A step from `t`: it emits `es`, adds what they close to the log, and keeps the invariant.
pub record Steps (log : List Command) (t : Tracker) (r : Tracker × List Event) : Type 0 where
  pub inv : Inv (log ++ closed r.1) r.0
  pub trace : Trace t.current r.1 r.0.current
  pub same_max : r.0.max_history ≡ t.max_history

pub Steps-none : (log : List Command) (t : Tracker) → Inv log t → Steps log t (t, [])
Steps-none log t v = record { inv = rw append-nil v; trace = refl; same_max = refl }

-- Filing away a closed form of the command in flight is such a step.
file_away-Steps :
    (log : List Command) (t : Tracker) (c d : Command) (row : ℤ)
    → Inv log t
    → t.current ≡ some c
    → Closes c d
    → Steps log t (file_away d t, finished d row ∷ [])
unfolding append_history
file_away-Steps log t c d row v e k = record {
  inv = record {
    matched = tt;
    kept = ground (arith, append_history-kept log t d v.positive v.kept);
    positive = ground arith;
  };
  trace = (none, rw e (k, refl), refl);
  same_max = ground arith;
}

abbrev tracker : State → Option Command → List Command → ℕ → Tracker
tracker s o h max = record { state = s; current = o; history = h; max_history = max }

-- The closed form is a step from a running tracker; any other state is left alone.
close_if_running-Steps :
    (log : List Command) (now : ℕ) (row : ℤ) (s : State) (o : Option Command) (h : List Command)
    (max : ℕ)
    → Inv log (tracker s o h max)
    → Returns
        (λ r. Steps log (tracker s o h max) r × (r.0.current ≡ none))
        (close_if_running now row (tracker s o h max))
unfolding close_if_running close_orphan
close_if_running-Steps log now row command_running none h max v = elim v.matched [ ]
close_if_running-Steps log now row command_running (some c) h max v =
    (file_away-Steps log _ c _ row v refl (record { started_at = refl; start_row = refl }), refl)
close_if_running-Steps log now row _ (some c) h max v = elim v.matched [ ]
close_if_running-Steps log now row _ none h max v = (Steps-none log _ v, refl)

on_d-Steps :
    (log : List Command) (now : ℕ) (exit row : ℤ) (s : State) (o : Option Command)
    (h : List Command) (max : ℕ)
    → Inv log (tracker s o h max)
    → Steps log (tracker s o h max) (on_d now exit row (tracker s o h max))
unfolding on_d
on_d-Steps log now exit row command_running none h max v = elim v.matched [ ]
on_d-Steps log now exit row command_running (some c) h max v =
    file_away-Steps log _ c _ row v refl (record { started_at = refl; start_row = refl })
on_d-Steps log now exit row _ o h max v = Steps-none log _ v

-- A prompt, or none if one is shown already, after a step that leaves nothing in flight.
on_a-Steps :
    (log : List Command) (row : ℤ) (t u : Tracker) (es : List Event)
    → Steps log t (u, es)
    → u.current ≡ none
    → Steps log t (on_a row (u, es))
unfolding on_a
on_a-Steps log row t u es st e = go u.state u.current refl refl
  where
    asked : Event
    asked = record { kind = prompt_shown; command = none; row = row }

    prompted : Steps log t (record u { state = prompt_shown }, es ++ asked ∷ [])
    prompted = record {
      inv =
          rw (closed-append es (asked ∷ []), append-nil (closed es))
            (record { matched = rw e tt; kept = st.inv.kept; positive = st.inv.positive });
      trace =
          Trace-append t.current u.current u.current es (asked ∷ []) st.trace
            (u.current, (e, refl, e), refl);
      same_max = st.same_max;
    }

    go :
        (s : State) (o : Option Command)
        → u.state ≡ s
        → u.current ≡ o
        → Steps log t (on_a row (u, es))
    go prompt_shown o x y = rw (x, on_a) st
    go idle o x y = rw (x, on_a) prompted
    go user_typing o x y = rw (x, on_a) prompted
    go command_running o x y = rw (x, on_a) prompted

on_b-Steps :
    (log : List Command) (t u : Tracker) (es : List Event)
    → Steps log t (u, es)
    → u.current ≡ none
    → Steps log t (on_b (u, es))
unfolding on_b
on_b-Steps log t u es st e = record {
  inv = record { matched = rw e tt; kept = st.inv.kept; positive = st.inv.positive };
  trace = st.trace;
  same_max = st.same_max;
}

on_c-Steps :
    (log : List Command) (now : ℕ → ℕ) (row : ℤ) (t u : Tracker) (es : List Event)
    → Steps log t (u, es)
    → u.current ≡ none
    → Steps log t (on_c now row (u, es))
unfolding on_c
on_c-Steps log now row t u es st e = record {
  inv =
      rw (closed-append es, append-nil (closed es))
        (record { matched = tt; kept = st.inv.kept; positive = st.inv.positive });
  trace = Trace-append t.current u.current _ es _ st.trace (_, (e, refl, (_, refl)), refl);
  same_max = st.same_max;
}

after_close :
    (log : List Command) (t : Tracker) (f : Tracker × List Event → Tracker × List Event)
    (m : Option (Tracker × List Event))
    → Returns (λ r. Steps log t r × (r.0.current ≡ none)) m
    → ((u : Tracker) (es : List Event)
        → Steps log t (u, es)
        → u.current ≡ none
        → Steps log t (f (u, es)))
    → Returns (Steps log t) (Option.map f m)
after_close log t f none h k = elim h [ ]
after_close log t f (some (u, es)) (st, e) k = k u es st e

-- One marker, whatever its code: `handle` does not fault, and refines the abstract view.
pub handle-Steps :
    (log : List Command) (code : ℕ) (exit row : ℤ) (now : ℕ → ℕ) (t : Tracker)
    → Inv log t
    → Returns (Steps log t) (handle code exit row now t)
unfolding handle
handle-Steps log code exit row now t v = ground (
  arith,
  after_close log t (on_a row) _ closes (on_a-Steps log row t),
  after_close log t on_b _ closes (on_b-Steps log t),
  after_close log t (on_c now row) _ closes (on_c-Steps log now row t),
  on_d-Steps log (now 0) exit row t.state t.current t.history t.max_history v,
  Steps-none log t v,
)
  where
    closes : Returns (λ r. Steps log t r × (r.0.current ≡ none)) (close_if_running (now 0) row t)
    closes = close_if_running-Steps log (now 0) row t.state t.current t.history t.max_history v
