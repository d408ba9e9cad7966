-- ===== src/Daemon/Waiters/Answers.antt =====
-- What a waiter is told in the course of what happens to its session.
use mathlib.Core.List.{Memᴰ}
use wmux.Prelude.{
  ℕ, ◌≡◌, refl, sym, ap, ◌∙◌, subst, if◌then◌else◌, inl, inr, List, [], ◌∷◌, ◌++◌, Option, none,
  some, Option-cases, Bytes, bytes_eq, bytes_eq_refl, arith,
}
use wmux.Prelude.Int.{ℤ}
use wmux.Prelude.Search.{contains}
use wmux.Daemon.Waiters.Steps.{
  Op, adds, removes, outputs, exits, step, run, StaysOne, after, Memᴰ-step,
}
use wmux.Daemon.Waiters.{
  Mode, wait_match, WaitResponse, Waiter, Waiters, waiters_of, send, exit_response, match_response,
  exit_one, non_exit_one, output_one, wake, receives,
}

or_else : Option WaitResponse → Option WaitResponse → Option WaitResponse
or_else none b = b
or_else (some a) b = some a

-- What one step tells a waiter of the session: that it has exited, or, if the waiter looks for a
-- pattern, that the output contains it.
unfoldable pub answer : Bytes → Mode → Bytes → Op → Option WaitResponse
answer id mode pattern (adds j w) = none
answer id mode pattern (removes j handle) = none
answer id mode pattern (exits j code) =
    if bytes_eq j id then some (exit_response j mode code) else none
answer id wait_match pattern (outputs j output) =
    if bytes_eq j id
    then if contains output pattern then some (match_response j) else none
    else none
answer id mode pattern (outputs j output) = none

unfoldable pub first_answer : Bytes → Mode → Bytes → List Op → Option WaitResponse
unfolding answer or_else
first_answer id mode pattern [] = none
first_answer id mode pattern (o ∷ os) =
    or_else (answer id mode pattern o) (first_answer id mode pattern os)

-- The waiter is never removed.
abbrev pub Stays : Bytes → ℕ → List Op → Type 0
Stays id handle [] = Unit
Stays id handle (o ∷ os) = StaysOne id handle o × Stays id handle os

-- A waiter of the session that was set up like this one and has been told this.
pub record Stands (id : Bytes) (w : Waiter) (told : Option WaitResponse) (m : Waiters)
    : Type 0 where
  pub now : Waiter
  pub there : Memᴰ now (waiters_of id m)
  pub same_handle : now.handle ≡ w.handle
  pub same_mode : now.mode ≡ w.mode
  pub same_pattern : now.pattern ≡ w.pattern
  pub told_first : now.done ≡ told

after-answer :
    (id : Bytes) (o : Op) (w : Waiter)
    → (after id o w).done ≡ or_else w.done (answer id w.mode w.pattern o)
unfolding after or_else answer output_one exit_one non_exit_one send
after-answer id (adds j v) w = ground arith
after-answer id (removes j k) w = ground arith
after-answer id (outputs j output) w = ground arith
after-answer id (exits j code) w = ground arith

after-same :
    (id : Bytes) (o : Op) (w : Waiter)
    → ((after id o w).handle ≡ w.handle)
      × ((after id o w).mode ≡ w.mode)
      × ((after id o w).pattern ≡ w.pattern)
unfolding after output_one exit_one non_exit_one send
after-same id (adds j v) w = (refl, refl, refl)
after-same id (removes j k) w = (refl, refl, refl)
after-same id (outputs j output) w = (ground arith, ground arith, ground arith)
after-same id (exits j code) w = (ground arith, ground arith, ground arith)

or_else_assoc : (a b c : Option WaitResponse) → or_else (or_else a b) c ≡ or_else a (or_else b c)
unfolding or_else
or_else_assoc none b c = refl
or_else_assoc (some a) b c = refl

or_else-none : (a : Option WaitResponse) → or_else a none ≡ a
unfolding or_else
or_else-none none = refl
or_else-none (some a) = refl

run-Stands :
    (id : Bytes) (os : List Op) (w : Waiter) (m : Waiters)
    → Stays id w.handle os
    → Memᴰ w (waiters_of id m)
    → Stands id w (or_else w.done (first_answer id w.mode w.pattern os)) (run os m)
unfolding run first_answer
run-Stands id [] w m s h = record {
  now = w;
  there = h;
  same_handle = refl;
  same_mode = refl;
  same_pattern = refl;
  told_first = sym (or_else-none w.done);
}
run-Stands id (o ∷ os) w m s h =
    let (handle, mode, pattern) = after-same id o w in
    let v = after id o w in
    let rest =
      run-Stands id os v (step o m) (subst (λ k. Stays id k os) (sym handle) s.1)
        (Memᴰ-step id o w m s.0 h) in
    record {
      now = rest.now;
      there = rest.there;
      same_handle = rest.same_handle ∙ handle;
      same_mode = rest.same_mode ∙ mode;
      same_pattern = rest.same_pattern ∙ pattern;
      told_first =
          rest.told_first
          ∙ ap (λ k. or_else v.done (first_answer id k v.pattern os)) mode
          ∙ ap (λ k. or_else v.done (first_answer id w.mode k os)) pattern
          ∙ ap (λ k. or_else k (first_answer id w.mode w.pattern os)) (after-answer id o w)
          ∙ or_else_assoc w.done (answer id w.mode w.pattern o)
              (first_answer id w.mode w.pattern os);
    }

first_answer-exits :
    (id : Bytes) (mode : Mode) (pattern : Bytes) (code : ℤ) (before later : List Op)
    → (r : WaitResponse) × (first_answer id mode pattern (before ++ exits id code ∷ later) ≡ some r)
unfolding first_answer or_else answer
first_answer-exits id mode pattern code [] later =
    (exit_response id mode code, rw (bytes_eq_refl id) refl)
first_answer-exits id mode pattern code (o ∷ before) later =
    elim (Option-cases (answer id mode pattern o)) [
      | inr (r, e) ↦ (r, rw e refl)
      | inl e ↦ let (r, f) = first_answer-exits id mode pattern code before later in (r, rw e f)
    ]

-- A waiter that has been told nothing and is not removed is answered once its session exits, whatever
-- happens before and after: the response that it then receives is the first that the events gave
-- it, the match of a chunk of output or the exit, and no later event replaces it.
pub exit-answers :
    (id : Bytes) (w : Waiter) (m : Waiters) (code : ℤ) (before later : List Op) (timeout : ℕ)
    → w.done ≡ none
    → Memᴰ w (waiters_of id m)
    → Stays id w.handle (before ++ exits id code ∷ later)
    → (r : WaitResponse) × (v : Waiter) × (first_answer id w.mode w.pattern
          (before ++ exits id code ∷ later)
        ≡ some r)
      × Memᴰ v (waiters_of id (run (before ++ exits id code ∷ later) m))
      × (v.handle ≡ w.handle)
      × (wake id timeout receives v ≡ some r)
unfolding wake or_else
exit-answers id w m code before later timeout fresh h s =
    let (r, e) = first_answer-exits id w.mode w.pattern code before later in
    let a = run-Stands id (before ++ exits id code ∷ later) w m s h in
    (
      r,
      a.now,
      e,
      a.there,
      a.same_handle,
      a.told_first
          ∙ ap (λ k. or_else k (first_answer id w.mode w.pattern (before ++ exits id code ∷ later)))
              fresh
          ∙ e,
    )
