-- ===== src/Lifecycle/Sessions.antt =====
-- What `Service` keeps for every session: sound trackers, sessions that do not disturb one another,
-- and saves that lose no closed command.
use mathlib.Core.Option
use wmux.Prelude.{
  ℕ, ◌<◌, ◌≡◌, refl, sym, ◌∙◌, ◌⊎◌, inl, inr, false, Bool-cases, List, [], ◌∷◌, ◌++◌, Option, none,
  some, Option-cases, arith, Returns, Bytes, bytes_eq, lookup, insert, lookup-insert_self,
  lookup-insert_ne, Each, Each-nil, Each-insert, Each-delete, append-nil, map, zero, suc, last,
}
use wmux.Prelude.Int.{ℤ, pos, negsuc}
use wmux.Lifecycle.{Command, Event, Tracker, SessionState, handle, snapshot}
use wmux.Lifecycle.Spec.{closed}
use wmux.Lifecycle.Refines.{Inv, Steps, handle-Steps, new_tracker-Inv}
use wmux.Lifecycle.Runs.{restore-Inv}
use wmux.Lifecycle.Service.{
  Service, Effects, Error, session_not_registered, register, unregister, any_finished, dispatch,
  handle_osc, restore_session, no_effects, new_service, apply_options, with_max_history,
}

-- The tracker is one that some history of markers can lead to.
abbrev pub IsSound : Tracker → Type 0
IsSound t = (log : List Command) × Inv log t

pub record AllSound (s : Service) : Type 0 where
  pub positive : 0 < s.max_history
  pub each : Each (λ _ t. IsSound t) s.trackers

insert-AllSound :
    (s : Service) (id : Bytes) (t : Tracker)
    → AllSound s
    → IsSound t
    → AllSound (record s { trackers = insert id t s.trackers })
insert-AllSound s id t v h = record {
  positive = v.positive;
  each = Each-insert _ id t s.trackers v.each h;
}

pub register-AllSound : (s : Service) (id : Bytes) → AllSound s → AllSound (register id s).0
unfolding register
register-AllSound s id v = elim (Option-cases (lookup id s.trackers)) [
  | inl e ↦
      rw (e, register) (insert-AllSound s id _ v ([], new_tracker-Inv s.max_history v.positive))
  | inr (t, e) ↦ rw (e, register) v
]

pub restore_session-AllSound :
    (s : Service) (id : Bytes) (state : SessionState) (now : ℕ)
    → AllSound s
    → AllSound (restore_session id state now s).0
unfolding restore_session
restore_session-AllSound s id state now v = elim (Option-cases (lookup id s.trackers)) [
  | inl e ↦
      rw (e, restore_session)
        (insert-AllSound s id _ v (_, restore-Inv s.max_history state now v.positive))
  | inr (t, e) ↦ rw (e, restore_session) v
]

pub unregister-AllSound : (s : Service) (id : Bytes) → AllSound s → AllSound (unregister id s)
unfolding unregister
unregister-AllSound s id v = record {
  positive = v.positive;
  each = Each-delete _ id s.trackers v.each;
}

any_finished-closed : (es : List Event) → any_finished es ≡ false → closed es ≡ []
unfolding any_finished
any_finished-closed [] h = refl
any_finished-closed (e ∷ es) h = ground (arith, any_finished-closed es)

-- What one marker for `id` does to the service: `id` keeps a sound tracker, every other session has
-- the tracker it had, and either nothing was saved and the history is what it was, or the
-- new state was saved once.
pub record Handled (id : Bytes) (s : Service) (t : Tracker) (r : Service × Effects × Option Error)
    : Type 0 where
  pub sound : AllSound r.0
  pub others : (j : Bytes) → bytes_eq id j ≡ false → lookup j r.0.trackers ≡ lookup j s.trackers
  pub after : Tracker
  pub found : lookup id r.0.trackers ≡ some after
  pub saved :
      ((r.1.saves ≡ []) × (after.history ≡ t.history)) ⊎ (r.1.saves ≡ (id, snapshot after) ∷ [])
  pub no_error : r.2 ≡ none

-- What is saved and what is not, for the step of one tracker.
dispatch-saved :
    (id : Bytes) (s : Service) (log : List Command) (t u : Tracker) (es : List Event)
    → Inv log t
    → Steps log t (u, es)
    → ((dispatch id s (u, es)).1.saves ≡ []) × (u.history ≡ t.history)
      ⊎ ((dispatch id s (u, es)).1.saves ≡ (id, snapshot u) ∷ [])
unfolding dispatch
dispatch-saved id s log t u es v st = elim (Bool-cases (any_finished es)) [
  | inl some_closed ↦ inr (rw some_closed)
  | inr none_closed ↦
      let kept : u.history ≡ last u.max_history (log ++ closed es) = st.inv.kept in
      inl (
        rw none_closed,
        rw (any_finished-closed es none_closed, append-nil log, st.same_max) at kept ∙ sym v.kept,
      )
]

dispatch-Handled :
    (id : Bytes) (s : Service) (log : List Command) (t u : Tracker) (es : List Event)
    → AllSound s
    → Inv log t
    → Steps log t (u, es)
    → Handled id s t (dispatch id s (u, es))
unfolding dispatch
dispatch-Handled id s log t u es a v st = record {
  sound = insert-AllSound s id u a (_, st.inv);
  others = λ j ne. lookup-insert_ne id j u s.trackers ne;
  after = u;
  found = lookup-insert_self id u s.trackers;
  saved = dispatch-saved id s log t u es v st;
  no_error = refl;
}

unhandled :
    (id : Bytes) (s : Service) (t : Tracker)
    → AllSound s
    → lookup id s.trackers ≡ some t
    → Handled id s t (s, no_effects, none)
unhandled id s t a e = record {
  sound = a;
  others = λ j ne. refl;
  after = t;
  found = e;
  saved = inl (refl, refl);
  no_error = refl;
}

-- A marker for a registered session never faults, whatever its code, and reports no error: the
-- session keeps a sound tracker, every other session the tracker it had, and either nothing is saved
-- and the history is what it was, or the new state is saved, once.
pub handle_osc-Handled :
    (id : Bytes) (code : ℕ) (exit row : ℤ) (now : ℕ → ℕ) (s : Service) (t : Tracker)
    → AllSound s
    → lookup id s.trackers ≡ some t
    → Returns (Handled id s t) (handle_osc id code exit row now s)
unfolding handle_osc
handle_osc-Handled id code exit row now s t a e =
    rw (e, handle_osc)
      (ground (
        arith,
        unhandled id s t a e,
        dispatched (handle code exit row now t) (handle-Steps log code exit row now t v),
      ))
  where
    log : List Command
    log = (a.each id t e).0

    v : Inv log t
    v = (a.each id t e).1

    dispatched :
        (m : Option (Tracker × List Event))
        → Returns (Steps log t) m
        → Returns (Handled id s t) (Option.map (dispatch id s) m)
    dispatched none h = elim h [ ]
    dispatched (some (u, es)) st = dispatch-Handled id s log t u es a v st

-- For any other session it is an error with no effect.
pub handle_osc_unknown :
    (id : Bytes) (code : ℕ) (exit row : ℤ) (now : ℕ → ℕ) (s : Service)
    → lookup id s.trackers ≡ none
    → handle_osc id code exit row now s ≡ some (s, no_effects, some session_not_registered)
unfolding handle_osc
handle_osc_unknown id code exit row now s e = rw (e, handle_osc)

apply_options-positive :
    (caps : List ℤ) (s : Service)
    → 0 < s.max_history
    → 0 < (apply_options (map with_max_history caps) s).max_history
unfolding apply_options with_max_history
apply_options-positive [] s h = h
apply_options-positive (pos zero ∷ caps) s h = apply_options-positive caps s h
apply_options-positive (pos (suc n) ∷ caps) s h =
    apply_options-positive caps (record s { max_history = suc n }) (omega arith)
apply_options-positive (negsuc n ∷ caps) s h = apply_options-positive caps s h

apply_options-empty :
    (caps : List ℤ) (s : Service)
    → s.trackers ≡ []
    → (apply_options (map with_max_history caps) s).trackers ≡ []
unfolding apply_options with_max_history
apply_options-empty [] s e = e
apply_options-empty (pos zero ∷ caps) s e = apply_options-empty caps s e
apply_options-empty (pos (suc n) ∷ caps) s e =
    apply_options-empty caps (record s { max_history = suc n }) e
apply_options-empty (negsuc n ∷ caps) s e = apply_options-empty caps s e

-- A new service is sound whatever caps it is given, zero and negative ones included.
pub new_service-AllSound : (caps : List ℤ) → AllSound (new_service (map with_max_history caps))
unfolding new_service
new_service-AllSound caps = record {
  positive = apply_options-positive caps bare (ground arith);
  each = rw (apply_options-empty caps bare refl) (Each-nil _);
}
  where
    bare : Service
    bare = record { trackers = []; on_event = false; max_history = 500 }
