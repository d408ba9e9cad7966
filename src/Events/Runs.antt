-- ===== src/Events/Runs.antt =====
-- Whole histories of a bus: when it can panic, and when it cannot.
use wmux.Prelude.{
  ℕ, ◌≡◌, refl, sym, ◌∙◌, Returns-imp, Bool, true, false, List, [], ◌∷◌, Option, none, some, arith,
  Returns, ◌>>=◌, Bool-cases, inl, inr,
}
use wmux.Events.{
  Event, Subscription, Bus, update, new_bus, subscribe, publish, unsubscribe, close_one, close_all,
  close, receive,
}
use wmux.Events.Wellformed.{
  Cells, AllOpen, Absent, Distinct, IsWellformed, AllSettled, settled-update, new_bus-IsWellformed,
  subscribe-IsWellformed, publish-IsWellformed, unsubscribe-IsWellformed, AllOpen-update,
  AllOpen-queue,
}

abbrev pub AllDone : Cells → List ℕ → Type 0
AllDone f [] = Unit
AllDone f (i ∷ is) = ((f i).ch_closed ≡ true) × ((f i).once_done ≡ true) × AllDone f is

-- What closing the listed subscriptions does.
pub record Closes (b : Bus) (is : List ℕ) (c : Bus) : Type 0 where
  pub same_subs : c.subs ≡ b.subs
  pub same_closed : c.closed ≡ b.closed
  pub done : AllDone c.cell is
  pub others : (j : ℕ) → Absent j is → c.cell j ≡ b.cell j
  pub settled : AllSettled b.cell → AllSettled c.cell

close_all-Closes :
    (is : List ℕ) (n : ℕ) (b : Bus)
    → AllOpen b.cell n is
    → Distinct is
    → Returns (Closes b is) (close_all is b)
unfolding close_all close_one
close_all-Closes [] n b v d = record {
  same_subs = refl;
  same_closed = refl;
  done = tt;
  others = λ j a. refl;
  settled = λ a. a;
}
close_all-Closes (i ∷ is) n b v d =
    rw (v.0.fresh_once, v.0.open_channel)
      (Returns-imp (close_all is c) widen
        (close_all-Closes is n c (AllOpen-update b.cell n n i shut is (omega arith) d.0 v.2) d.1))
  where
    shut : Subscription
    shut = record (b.cell i) { ch_closed = true; once_done = true }

    c : Bus
    c = record b { cell = update b.cell i shut }

    widen : (e : Bus) → Closes c is e → Closes b (i ∷ is) e
    widen e k = record {
      same_subs = k.same_subs;
      same_closed = k.same_closed;
      done = ground (arith, k.others i d.0, k.done);
      others = λ j a. k.others j a.1 ∙ rw a.0;
      settled = λ a. k.settled (settled-update b.cell i shut a (λ e. cc));
    }

-- Closing a bus never panics. It leaves the bus closed and well formed; a bus that was running
-- has no subscriptions any more, and each one it had has its channel closed, once for all.
close-IsWellformed :
    (b : Bus)
    → IsWellformed b
    → Returns
        (λ c.
          IsWellformed c
          × (c.closed ≡ true)
          × (b.closed ≡ false → AllDone c.cell b.subs × (c.subs ≡ []))
          × (AllSettled b.cell → AllSettled c.cell))
        (close b)
unfolding close
close-IsWellformed b v = elim (Bool-cases b.closed) [
  | inl over ↦ ground (arith, already over)
  | inr running ↦ ground (arith, closes running)
]
  where
    Closed : Bus → Type 0
    Closed c =
        IsWellformed c
        × (c.closed ≡ true)
        × (b.closed ≡ false → AllDone c.cell b.subs × (c.subs ≡ []))
        × (AllSettled b.cell → AllSettled c.cell)

    already : b.closed ≡ true → Closed b
    already over = (v, over, (λ e. cc), λ a. a)

    closes :
        b.closed ≡ false → Returns Closed (close_all b.subs (record b { closed = true; subs = [] }))
    closes running =
        Returns-imp (close_all b.subs (record b { closed = true; subs = [] }))
          (λ c k. (
            record { all_open = rw k.same_subs tt; distinct = rw k.same_subs tt },
            k.same_closed,
            (λ _. (k.done, k.same_subs)),
            k.settled,
          ))
          (close_all-Closes b.subs b.next (record b { closed = true; subs = [] }) v.all_open
            v.distinct)

pub data Op : Type 0 where
  subscribes : Option (List ℕ) → Op
  publishes : Event → Op
  unsubscribes : ℕ → Op
  receives : ℕ → Op
  closes : Op

unfoldable pub step : Op → Bus → Option Bus
step (subscribes filter) b = some (subscribe filter b).1
step (publishes e) b = publish e b
step (unsubscribes i) b = unsubscribe i b
step (receives i) b = some (receive i b).1
step closes b = close b

unfoldable pub run : List Op → Bus → Option Bus
run [] b = some b
run (o ∷ os) b = do c ← step o b; run os c

-- Nothing is subscribed behind the first `closes`; the flag is whether one has come.
abbrev pub NoLate : Bool → List Op → Type 0
NoLate over [] = Unit
NoLate over (subscribes filter ∷ os) = (over ≡ false) × NoLate over os
NoLate over (closes ∷ os) = NoLate true os
NoLate over (_ ∷ os) = NoLate over os

pub record IsSafe (over : Bool) (b : Bus) : Type 0 where
  pub wellformed : IsWellformed b
  pub settled : AllSettled b.cell
  pub same_flag : b.closed ≡ over

subscribe-settled :
    (filter : Option (List ℕ)) (b : Bus)
    → b.closed ≡ false
    → AllSettled b.cell
    → AllSettled (subscribe filter b).1.cell × ((subscribe filter b).1.closed ≡ false)
unfolding subscribe
subscribe-settled filter b running a =
    ground (arith, settled-update b.cell b.next made a (λ _. refl))
  where
    made : Subscription
    made = record { queue = []; ch_closed = false; once_done = false; filter = filter }

receive-IsSafe : (over : Bool) (i : ℕ) (b : Bus) → IsSafe over b → IsSafe over (receive i b).1
unfolding receive
receive-IsSafe over i b v = go (b.cell i).queue refl
  where
    go : (q : List Event) → (b.cell i).queue ≡ q → IsSafe over (receive i b).1
    go [] e = rw (e, receive) v
    go (x ∷ xs) e =
        rw (e, receive)
          (record {
            wellformed = record {
              all_open = AllOpen-queue b.cell b.next i xs b.subs v.wellformed.all_open;
              distinct = v.wellformed.distinct;
            };
            settled =
                settled-update b.cell i (record (b.cell i) { queue = xs }) v.settled (v.settled i);
            same_flag = v.same_flag;
          })

after_step : Bool → Op → Bool
after_step over closes = true
after_step over _ = over

step-IsSafe :
    (over : Bool) (o : Op) (os : List Op) (b : Bus)
    → NoLate over (o ∷ os)
    → IsSafe over b
    → Returns (IsSafe (after_step over o)) (step o b) × NoLate (after_step over o) os
unfolding step after_step
step-IsSafe over (subscribes filter) os b h v =
    let s = subscribe-settled filter b (v.same_flag ∙ h.0) v.settled in
    (
      record {
        wellformed = subscribe-IsWellformed filter b v.wellformed;
        settled = s.0;
        same_flag = s.1 ∙ sym h.0;
      },
      h.1,
    )
step-IsSafe over (publishes e) os b h v = (
  Returns-imp (publish e b)
      (λ c k. record {
        wellformed = k.0;
        settled = k.1.settles v.settled;
        same_flag = k.1.same_closed ∙ v.same_flag;
      })
      (publish-IsWellformed e b v.wellformed),
  h,
)
step-IsSafe over (unsubscribes i) os b h v = (
  Returns-imp (unsubscribe i b)
      (λ c k. record { wellformed = k.0; settled = k.1; same_flag = k.2 ∙ v.same_flag })
      (unsubscribe-IsWellformed i b v.wellformed v.settled),
  h,
)
step-IsSafe over (receives i) os b h v = (receive-IsSafe over i b v, h)
step-IsSafe over closes os b h v = (
  Returns-imp (close b)
      (λ c k. record { wellformed = k.0; settled = k.3 v.settled; same_flag = k.1 })
      (close-IsWellformed b v.wellformed),
  h,
)

new_bus-IsSafe : IsSafe false new_bus
unfolding new_bus
new_bus-IsSafe = record {
  wellformed = new_bus-IsWellformed;
  settled = λ i e. refl;
  same_flag = refl;
}

run-IsSafe :
    (os : List Op) (over : Bool) (b : Bus)
    → NoLate over os
    → IsSafe over b
    → Returns (λ c. IsWellformed c) (run os b)
unfolding run
run-IsSafe [] over b h v = v.wellformed
run-IsSafe (o ∷ os) over b h v =
    let (s, later) = step-IsSafe over o os b h v in
    go (step o b) s (run-IsSafe os (after_step over o)) later
  where
    flag : Bool
    flag = after_step over o

    go :
        (m : Option Bus)
        → Returns (IsSafe flag) m
        → ((c : Bus) → NoLate flag os → IsSafe flag c → Returns (λ d. IsWellformed d) (run os c))
        → NoLate flag os
        → Returns (λ d. IsWellformed d) (do c ← m; run os c)
    go none s ih l = elim s [ ]
    go (some c) s ih l = ih c l s

-- From a new bus, any sequence of subscribing, publishing, receiving, unsubscribing (as often as one
-- likes) and closing, in which nothing is subscribed after the close, never panics; and it
-- leaves every registered subscription with an open channel.
pub run-new_bus_safe :
    (os : List Op) → NoLate false os → Returns (λ c. AllOpen c.cell c.next c.subs) (run os new_bus)
run-new_bus_safe os h =
    Returns-imp (run os new_bus) (λ c v. v.all_open) (run-IsSafe os false new_bus h new_bus-IsSafe)

-- On a closed bus, subscribing and then unsubscribing closes the channel a second time: the process
-- panics, whatever the filter.
late_unsubscribe_panics :
    (filter : Option (List ℕ)) (b : Bus)
    → b.closed ≡ true
    → let (i, c) = subscribe filter b in unsubscribe i c ≡ none
unfolding subscribe unsubscribe
late_unsubscribe_panics filter b over = ground arith
