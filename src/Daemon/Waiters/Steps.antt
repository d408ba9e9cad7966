-- ===== src/Daemon/Waiters/Steps.antt =====
-- What one step does to a waiter of a session.
use mathlib.Core.List.{Memᴰ}
use mathlib.Core.List.Memᴰ.{head, tail}
use wmux.Prelude.{
  ℕ, ◌≡◌, sym, ap, ◌∙◌, ◌==◌, ◌⊎◌, if◌then◌else◌, false, Bool-cases, inl, inr, List, [], ◌∷◌, ◌++◌,
  Option-cases, Bytes, bytes_eq, bytes_eq_iff, map, lookup, insert, lookup-insert, arith,
}
use wmux.Prelude.Int.{ℤ}
use wmux.Daemon.Waiters.{
  Waiter, Waiters, waiters_of, add_waiter, remove_first, remove_waiter, notify, exit_one,
  non_exit_one, output_one, notify_exit_waiters, notify_exit_on_non_exit_waiters,
  notify_output_waiters, on_exit,
}

pub data Op : Type 0 where
  adds : Bytes → Waiter → Op
  removes : Bytes → ℕ → Op
  outputs : Bytes → Bytes → Op
  exits : Bytes → ℤ → Op

unfoldable pub step : Op → Waiters → Waiters
unfolding add_waiter remove_waiter notify_output_waiters on_exit
step (adds id w) m = add_waiter id w m
step (removes id handle) m = remove_waiter id handle m
step (outputs id output) m = notify_output_waiters id output m
step (exits id code) m = on_exit id code m

unfoldable pub run : List Op → Waiters → Waiters
unfolding step
run [] m = m
run (o ∷ os) m = run os (step o m)

-- The waiter is not removed.
abbrev pub StaysOne : Bytes → ℕ → Op → Type 0
StaysOne id handle (removes j k) = (bytes_eq j id ≡ false) ⊎ ((handle == k) ≡ false)
StaysOne id handle _ = Unit

Memᴰ-map : (f : Waiter → Waiter) (w : Waiter) (ws : List Waiter) → Memᴰ w ws → Memᴰ (f w) (map f ws)
Memᴰ-map f w [] h = elim h [ ]
Memᴰ-map f w (x ∷ ws) (head e) = head (ap f e)
Memᴰ-map f w (x ∷ ws) (tail h) = tail (Memᴰ-map f w ws h)

Memᴰ-append : (w : Waiter) (ws vs : List Waiter) → Memᴰ w ws → Memᴰ w (ws ++ vs)
Memᴰ-append w [] vs h = elim h [ ]
Memᴰ-append w (x ∷ ws) vs (head e) = head e
Memᴰ-append w (x ∷ ws) vs (tail h) = tail (Memᴰ-append w ws vs h)

Memᴰ-remove_first :
    (k : ℕ) (w : Waiter) (ws : List Waiter)
    → (w.handle == k) ≡ false
    → Memᴰ w ws
    → Memᴰ w (remove_first k ws)
unfolding remove_first
Memᴰ-remove_first k w [] ne h = elim h [ ]
Memᴰ-remove_first k w (x ∷ ws) ne (head e) =
    let other : (x.handle == k) ≡ false = ap (λ y. y.handle == k) (sym e) ∙ ne in rw other (head e)
Memᴰ-remove_first k w (x ∷ ws) ne (tail h) = elim (Bool-cases (x.handle == k)) [
  | inl this ↦ rw this h
  | inr other ↦ rw other (tail (Memᴰ-remove_first k w ws ne h))
]

waiters_of-insert :
    (id j : Bytes) (ws : List Waiter) (m : Waiters)
    → waiters_of id (insert j ws m) ≡ (if bytes_eq j id then ws else waiters_of id m)
unfolding waiters_of
waiters_of-insert id j ws m = ground (arith, lookup-insert j id ws m)

waiters_of-notify :
    (id j : Bytes) (f : Waiter → Waiter) (m : Waiters)
    → waiters_of id (notify j f m)
      ≡ (if bytes_eq j id then map f (waiters_of id m) else waiters_of id m)
unfolding waiters_of notify
waiters_of-notify id j f m = elim (Option-cases (lookup j m)) [
  | inl e ↦ ground (arith, e, bytes_eq_iff j id)
  | inr (ws, e) ↦ ground (arith, e, bytes_eq_iff j id, lookup-insert j id (map f ws) m)
]

waiters_of-remove_waiter :
    (id j : Bytes) (k : ℕ) (m : Waiters)
    → waiters_of id (remove_waiter j k m)
      ≡ (if bytes_eq j id then remove_first k (waiters_of id m) else waiters_of id m)
unfolding waiters_of remove_waiter remove_first
waiters_of-remove_waiter id j k m = elim (Option-cases (lookup j m)) [
  | inl e ↦ ground (arith, e, bytes_eq_iff j id)
  | inr (ws, e) ↦ ground (arith, e, bytes_eq_iff j id, lookup-insert j id (remove_first k ws) m)
]

Memᴰ-notify :
    (id j : Bytes) (f : Waiter → Waiter) (w : Waiter) (m : Waiters)
    → Memᴰ w (waiters_of id m)
    → Memᴰ (if bytes_eq j id then f w else w) (waiters_of id (notify j f m))
Memᴰ-notify id j f w m h = elim (Bool-cases (bytes_eq j id)) [
  | inl same ↦ rw (waiters_of-notify id j f m, same) (Memᴰ-map f w (waiters_of id m) h)
  | inr other ↦ rw (waiters_of-notify id j f m, other) h
]

unfoldable pub after : Bytes → Op → Waiter → Waiter
after id (adds j v) w = w
after id (removes j k) w = w
after id (outputs j output) w = if bytes_eq j id then output_one j output w else w
after id (exits j code) w =
    let v = if bytes_eq j id then exit_one j code w else w in
    if bytes_eq j id then non_exit_one j code v else v

pub Memᴰ-step :
    (id : Bytes) (o : Op) (w : Waiter) (m : Waiters)
    → StaysOne id w.handle o
    → Memᴰ w (waiters_of id m)
    → Memᴰ (after id o w) (waiters_of id (step o m))
unfolding step after add_waiter notify_output_waiters on_exit notify_exit_waiters
    notify_exit_on_non_exit_waiters
Memᴰ-step id (adds j v) w m s h = elim (Bool-cases (bytes_eq j id)) [
  | inl same ↦
      let is = ap (λ i. waiters_of i m) ((bytes_eq_iff j id).0 same) in
      rw (waiters_of-insert id j (waiters_of j m ++ v ∷ []) m, same, is)
        (Memᴰ-append w (waiters_of id m) (v ∷ []) h)
  | inr other ↦ rw (waiters_of-insert id j (waiters_of j m ++ v ∷ []) m, other) h
]
Memᴰ-step id (removes j k) w m s h = elim (Bool-cases (bytes_eq j id)) [
  | inl same ↦
      let ne : (w.handle == k) ≡ false = elim s [ inl x ↦ cc | inr x ↦ x ] in
      rw (waiters_of-remove_waiter id j k m, same) (Memᴰ-remove_first k w (waiters_of id m) ne h)
  | inr other ↦ rw (waiters_of-remove_waiter id j k m, other) h
]
Memᴰ-step id (outputs j output) w m s h = Memᴰ-notify id j (output_one j output) w m h
Memᴰ-step id (exits j code) w m s h =
    Memᴰ-notify id j (non_exit_one j code) (if bytes_eq j id then exit_one j code w else w)
      (notify j (exit_one j code) m) (Memᴰ-notify id j (exit_one j code) w m h)
