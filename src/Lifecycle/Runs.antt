-- ===== src/Lifecycle/Runs.antt =====
-- Whole histories of a tracker: any sequence of markers, and a restart.
use wmux.Prelude.{
  ℕ, ◌-◌, ◌<◌, ◌≤◌, ◌≡◌, refl, ◌∙◌, ap, List, [], ◌∷◌, ◌++◌, Option, none, some, arith, Returns,
  ◌>>=◌, length, last, length-last, append_assoc, append-nil,
}
use wmux.Prelude.Int.{ℤ}
use wmux.Lifecycle.{
  idle, Command, SessionState, Event, Tracker, append_history, handle, new_tracker, append_all,
  append_in_flight, as_restart_orphan, restore, snapshot,
}
use wmux.Lifecycle.Spec.{Trace, closed, Trace-append, closed-append}
use wmux.Lifecycle.Refines.{
  Inv, Steps, Steps-none, handle-Steps, new_tracker-Inv, append_history-Inv, max-append_history,
}

-- One call of `handle`, with the readings of its clock.
pub record Marker : Type 0 where
  pub code : ℕ
  pub exit : ℤ
  pub row : ℤ
  pub now : ℕ → ℕ

-- The calls in order, with all events emitted.
unfoldable pub run : List Marker → Tracker → Option (Tracker × List Event)
run [] t = some (t, [])
run (m ∷ ms) t = do
  (u, es) ← handle m.code m.exit m.row m.now t
  (v, fs) ← run ms u
  some (v, es ++ fs)

Steps-trans :
    (log : List Command) (t u v : Tracker) (es fs : List Event)
    → Steps log t (u, es)
    → Steps (log ++ closed es) u (v, fs)
    → Steps log t (v, es ++ fs)
Steps-trans log t u v es fs p q = record {
  inv = rw (closed-append es fs, ← append_assoc log (closed es) (closed fs)) q.inv;
  trace = Trace-append t.current u.current v.current es fs p.trace q.trace;
  same_max = q.same_max ∙ p.same_max;
}

then-Steps :
    (log : List Command) (t u : Tracker) (es : List Event) (m : Option (Tracker × List Event))
    → Steps log t (u, es)
    → Returns (Steps (log ++ closed es) u) m
    → Returns (Steps log t) (do (v, fs) ← m; some (v, es ++ fs))
then-Steps log t u es none p h = elim h [ ]
then-Steps log t u es (some (v, fs)) p q = Steps-trans log t u v es fs p q

pub run-Steps :
    (ms : List Marker) (log : List Command) (t : Tracker)
    → Inv log t
    → Returns (Steps log t) (run ms t)
unfolding run
run-Steps [] log t v = Steps-none log t v
run-Steps (m ∷ ms) log t v =
    go (handle m.code m.exit m.row m.now t) (handle-Steps log m.code m.exit m.row m.now t v)
      (run-Steps ms)
  where
    go :
        (r : Option (Tracker × List Event))
        → Returns (Steps log t) r
        → ((l : List Command) (u : Tracker) → Inv l u → Returns (Steps l u) (run ms u))
        → Returns (Steps log t) (do (u, es) ← r; (w, fs) ← run ms u; some (w, es ++ fs))
    go none h ih = elim h [ ]
    go (some (u, es)) p ih = then-Steps log t u es (run ms u) p (ih (log ++ closed es) u p.inv)

-- From a new tracker with a positive cap, any sequence of markers, well formed or not, is handled
-- without a nil dereference. The starts and finishes among the events alternate, each finish closing
-- the command that was started, and the history is the last `max` of all commands that were closed.
pub run-new_tracker :
    (max : ℕ) (ms : List Marker)
    → 0 < max
    → Returns
        (λ r. Trace none r.1 r.0.current × (r.0.history ≡ last max (closed r.1)))
        (run ms (new_tracker max))
run-new_tracker max ms p = go (run ms (new_tracker max)) (run-Steps ms [] _ (new_tracker-Inv max p))
  where
    go :
        (m : Option (Tracker × List Event))
        → Returns (Steps [] (new_tracker max)) m
        → Returns (λ r. Trace none r.1 r.0.current × (r.0.history ≡ last max (closed r.1))) m
    go none h = elim h [ ]
    go (some (u, es)) st = unfold new_tracker in (st.trace, rw (← st.same_max) st.inv.kept)

abbrev pub orphans : ℕ → Option Command → List Command
orphans now none = []
orphans now (some c) = as_restart_orphan now c ∷ []

-- Appending in order keeps the end of all that was appended.
append_all-Inv :
    (log cs : List Command) (t : Tracker)
    → Inv log t
    → Inv (log ++ cs) (append_all cs t) × ((append_all cs t).max_history ≡ t.max_history)
unfolding append_all
append_all-Inv log [] t v = (rw append-nil v, refl)
append_all-Inv log (c ∷ cs) t v =
    let (w, e) =
      append_all-Inv (log ++ c ∷ []) cs (append_history c t) (append_history-Inv log c t v) in
    (rw append_assoc at w, e ∙ max-append_history c t)

append_in_flight-Inv :
    (log : List Command) (now : ℕ) (o : Option Command) (t : Tracker)
    → Inv log t
    → Inv (log ++ orphans now o) (append_in_flight now o t)
      × ((append_in_flight now o t).max_history ≡ t.max_history)
unfolding append_in_flight
append_in_flight-Inv log now none t v = (rw append-nil v, refl)
append_in_flight-Inv log now (some c) t v = (append_history-Inv log _ t v, max-append_history _ t)

max-new_tracker : (max : ℕ) → (new_tracker max).max_history ≡ max
unfolding new_tracker
max-new_tracker max = refl

-- Whatever state was saved, a restored tracker is idle with nothing in flight, and its history is
-- the last `max` of the saved history with the command that was in flight closed behind it.
pub restore-new_tracker :
    (max : ℕ) (s : SessionState) (now : ℕ)
    → 0 < max
    → restore s now (new_tracker max) ≡ record {
      state = idle;
      current = none;
      history = last max (s.history ++ orphans now s.in_flight);
      max_history = max;
    }
unfolding restore
restore-new_tracker max s now p =
    let (v, e) = append_all-Inv [] s.history (new_tracker max) (new_tracker-Inv max p) in
    let (w, f) = append_in_flight-Inv s.history now s.in_flight _ v in
    let m = f ∙ e ∙ max-new_tracker max in
    let h = w.kept ∙ ap (λ k. last k (s.history ++ orphans now s.in_flight)) m in
    λ i. record { state = idle; current = none; history = h i; max_history = m i }

pub restore-Inv :
    (max : ℕ) (s : SessionState) (now : ℕ)
    → 0 < max
    → Inv (s.history ++ orphans now s.in_flight) (restore s now (new_tracker max))
restore-Inv max s now p =
    rw (restore-new_tracker max s now p) (record { matched = tt; kept = refl; positive = p })

last-eq_self {ℓ} : {A : Type ℓ} (n : ℕ) (xs : List A) → length xs ≤ n → last n xs ≡ xs
last-eq_self n xs h = let e : length xs - n ≡ 0 = omega arith in rw e

-- A tracker whose last command has finished survives a restart: saved and restored under the same
-- cap, it has the saved state again.
snapshot-restore :
    (log : List Command) (t : Tracker) (now : ℕ)
    → Inv log t
    → t.current ≡ none
    → snapshot (restore (snapshot t) now (new_tracker t.max_history)) ≡ snapshot t
unfolding snapshot
snapshot-restore log t now v e =
    let fits : length t.history ≤ t.max_history =
      rw v.kept (omega (arith, length-last t.max_history log)) in
    rw (restore-new_tracker t.max_history (snapshot t) now v.positive)
      (rw (e, append-nil t.history, last-eq_self t.max_history t.history fits))
