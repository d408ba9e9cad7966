-- ===== src/Events/Wellformed.antt =====
-- No operation on the bus sends on, or closes, a closed channel.
use wmux.Prelude.{
  ℕ, ◌+◌, ◌<◌, ◌≤◌, ◌≡◌, refl, ◌∙◌, Returns-imp, inl, inr, ◌==◌, true, false, List, [], ◌∷◌, ◌++◌,
  Option, none, some, arith, Returns, ◌>>=◌, Bool-cases,
}
use wmux.Events.{
  Event, Subscription, Bus, update, new_bus, subscribe, deliver, deliver_all, publish, remove,
  unsubscribe,
}

-- What a registered subscription is like, under a counter `n`.
pub record IsOpen (s : Subscription) : Type 0 where
  pub open_channel : s.ch_closed ≡ false
  pub fresh_once : s.once_done ≡ false

abbrev pub Cells : Type 0
Cells = ℕ → Subscription

abbrev pub AllOpen : Cells → ℕ → List ℕ → Type 0
AllOpen f n [] = Unit
AllOpen f n (i ∷ is) = IsOpen (f i) × (i < n) × AllOpen f n is

abbrev pub Absent : ℕ → List ℕ → Type 0
Absent i [] = Unit
Absent i (j ∷ js) = ((j == i) ≡ false) × Absent i js

abbrev pub Distinct : List ℕ → Type 0
Distinct [] = Unit
Distinct (i ∷ is) = Absent i is × Distinct is

pub record IsWellformed (b : Bus) : Type 0 where
  pub all_open : AllOpen b.cell b.next b.subs
  pub distinct : Distinct b.subs

pub new_bus-IsWellformed : IsWellformed new_bus
unfolding new_bus
new_bus-IsWellformed = record { all_open = tt; distinct = tt }

-- Another cell may change, and the counter may grow.
pub AllOpen-update :
    (f : Cells) (n m i : ℕ) (s : Subscription) (is : List ℕ)
    → n ≤ m
    → Absent i is
    → AllOpen f n is
    → AllOpen (update f i s) m is
AllOpen-update f n m i s [] h a v = tt
AllOpen-update f n m i s (j ∷ js) h a v = ground (arith, AllOpen-update f n m i s js h a.1 v.2)

-- A queue may change.
pub AllOpen-queue :
    (f : Cells) (n i : ℕ) (q : List Event) (is : List ℕ)
    → AllOpen f n is
    → AllOpen (update f i (record (f i) { queue = q })) n is
AllOpen-queue f n i q [] v = tt
AllOpen-queue f n i q (j ∷ js) v = ground (arith, AllOpen-queue f n i q js v.2)

Absent-used : (f : Cells) (n : ℕ) (is : List ℕ) → AllOpen f n is → Absent n is
Absent-used f n [] v = tt
Absent-used f n (j ∷ js) v = ground (arith, Absent-used f n js v.2)

Absent-concat : (i k : ℕ) (is : List ℕ) → Absent i is → (k == i) ≡ false → Absent i (is ++ k ∷ [])
Absent-concat i k [] a h = (h, tt)
Absent-concat i k (j ∷ js) a h = (a.0, Absent-concat i k js a.1 h)

Distinct-concat : (k : ℕ) (is : List ℕ) → Absent k is → Distinct is → Distinct (is ++ k ∷ [])
Distinct-concat k [] a d = (tt, tt)
Distinct-concat k (j ∷ js) a d =
    (Absent-concat j k js d.0 (ground (arith, a.0)), Distinct-concat k js a.1 d.1)

AllOpen-concat :
    (f : Cells) (n k : ℕ) (is : List ℕ)
    → AllOpen f n is
    → IsOpen (f k)
    → k < n
    → AllOpen f n (is ++ k ∷ [])
AllOpen-concat f n k [] v o h = (o, h, tt)
AllOpen-concat f n k (j ∷ js) v o h = (v.0, v.1, AllOpen-concat f n k js v.2 o h)

pub subscribe-IsWellformed :
    (filter : Option (List ℕ)) (b : Bus) → IsWellformed b → IsWellformed (subscribe filter b).1
unfolding subscribe
subscribe-IsWellformed filter b v = ground (
  arith,
  kept (record { queue = []; ch_closed = true; once_done = false; filter = filter }),
  Distinct-concat b.next b.subs absent v.distinct,
  AllOpen-concat (update b.cell b.next made) (b.next + 1) b.next b.subs (kept made),
)
  where
    made : Subscription
    made = record { queue = []; ch_closed = false; once_done = false; filter = filter }

    absent : Absent b.next b.subs
    absent = Absent-used b.cell b.next b.subs v.all_open

    kept : (s : Subscription) → AllOpen (update b.cell b.next s) (b.next + 1) b.subs
    kept s =
        AllOpen-update b.cell b.next (b.next + 1) b.next s b.subs (omega arith) absent v.all_open

-- The channel is open until the `once` has run. (A subscription made on a closed bus breaks it.)
abbrev pub IsSettled : Subscription → Type 0
IsSettled s = s.once_done ≡ false → s.ch_closed ≡ false

abbrev pub AllSettled : Cells → Type 0
AllSettled f = (i : ℕ) → IsSettled (f i)

pub settled-update :
    (f : Cells) (i : ℕ) (s : Subscription) → AllSettled f → IsSettled s → AllSettled (update f i s)
settled-update f i s a h j = ground (arith, a j, h)

-- What a delivery keeps of a bus.
pub record Keeps (b c : Bus) : Type 0 where
  pub same_subs : c.subs ≡ b.subs
  pub same_closed : c.closed ≡ b.closed
  pub settles : AllSettled b.cell → AllSettled c.cell
  pub stays_open : (is : List ℕ) → AllOpen b.cell b.next is → AllOpen c.cell c.next is

Keeps-refl : (b : Bus) → Keeps b b
Keeps-refl b = record {
  same_subs = refl;
  same_closed = refl;
  settles = λ a. a;
  stays_open = λ is v. v;
}

Keeps-trans : {b c d : Bus} → Keeps b c → Keeps c d → Keeps b d
Keeps-trans p q = record {
  same_subs = q.same_subs ∙ p.same_subs;
  same_closed = q.same_closed ∙ p.same_closed;
  settles = λ a. q.settles (p.settles a);
  stays_open = λ is v. q.stays_open is (p.stays_open is v);
}

deliver-Keeps :
    (e : Event) (i : ℕ) (b : Bus) → IsOpen (b.cell i) → Returns (Keeps b) (deliver e i b)
unfolding deliver
deliver-Keeps e i b o = ground (arith, Keeps-refl b, sent)
  where
    grown : Subscription
    grown = record (b.cell i) { queue = (b.cell i).queue ++ e ∷ [] }

    sent : Keeps b (record b { cell = update b.cell i grown })
    sent = record {
      same_subs = refl;
      same_closed = refl;
      settles = λ a. settled-update b.cell i grown a (a i);
      stays_open = λ is v. AllOpen-queue b.cell b.next i ((b.cell i).queue ++ e ∷ []) is v;
    }

deliver_all-Keeps :
    (e : Event) (js : List ℕ) (b : Bus)
    → AllOpen b.cell b.next js
    → Returns (Keeps b) (deliver_all e js b)
unfolding deliver_all
deliver_all-Keeps e [] b w = Keeps-refl b
deliver_all-Keeps e (j ∷ js) b w =
    go (deliver e j b) (deliver-Keeps e j b w.0) (deliver_all-Keeps e js)
  where
    go :
        (m : Option Bus)
        → Returns (Keeps b) m
        → ((c : Bus) → AllOpen c.cell c.next js → Returns (Keeps c) (deliver_all e js c))
        → Returns (Keeps b) (do c ← m; deliver_all e js c)
    go none h ih = elim h [ ]
    go (some c) k ih =
        Returns-imp (deliver_all e js c) (λ d q. Keeps-trans k q) (ih c (k.stays_open js w.2))

pub publish-IsWellformed :
    (e : Event) (b : Bus) → IsWellformed b → Returns (λ c. IsWellformed c × Keeps b c) (publish e b)
unfolding publish
publish-IsWellformed e b v = ground (arith, delivered, Keeps-refl b)
  where
    delivered : Returns (λ c. IsWellformed c × Keeps b c) (deliver_all e b.subs b)
    delivered =
        Returns-imp (deliver_all e b.subs b)
          (λ c k. (
            record {
              all_open = rw k.same_subs (k.stays_open b.subs v.all_open);
              distinct = rw k.same_subs v.distinct;
            },
            k,
          ))
          (deliver_all-Keeps e b.subs b v.all_open)

Absent-remove : (i k : ℕ) (is : List ℕ) → Absent i is → Absent i (remove k is)
Absent-remove i k [] a = tt
Absent-remove i k (j ∷ js) a = ground (arith, Absent-remove i k js a.1)

Distinct-remove : (k : ℕ) (is : List ℕ) → Distinct is → Distinct (remove k is)
Distinct-remove k [] d = tt
Distinct-remove k (j ∷ js) d = ground (arith, Distinct-remove k js d.1, Absent-remove j k js d.0)

Absent-removed : (k : ℕ) (is : List ℕ) → Distinct is → Absent k (remove k is)
Absent-removed k [] d = tt
Absent-removed k (j ∷ js) d = elim (Bool-cases (j == k)) [
  | inl hit ↦ rw hit (let e : j ≡ k = ground arith in rw (← e) d.0)
  | inr miss ↦ rw miss (miss, Absent-removed k js d.1)
]

AllOpen-remove : (f : Cells) (n k : ℕ) (is : List ℕ) → AllOpen f n is → AllOpen f n (remove k is)
AllOpen-remove f n k [] v = tt
AllOpen-remove f n k (j ∷ js) v = ground (arith, AllOpen-remove f n k js v.2)

pub unsubscribe-IsWellformed :
    (i : ℕ) (b : Bus)
    → IsWellformed b
    → AllSettled b.cell
    → Returns
        (λ c.
          IsWellformed c
          × AllSettled c.cell
          × (c.closed ≡ b.closed)
          × ((c.cell i).once_done ≡ true))
        (unsubscribe i b)
unfolding unsubscribe
unsubscribe-IsWellformed i b v a = ground (
  arith,
  a,
  a i,
  settled-update b.cell i done a (λ e. cc),
  Distinct-remove i b.subs v.distinct,
  AllOpen-update b.cell b.next b.next i done (remove i b.subs) (omega arith)
      (Absent-removed i b.subs v.distinct) (AllOpen-remove b.cell b.next i b.subs v.all_open),
)
  where
    done : Subscription
    done = record (b.cell i) { ch_closed = true; once_done = true }
