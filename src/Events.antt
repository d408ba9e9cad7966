-- ===== src/Events.antt =====
-- internal/platform/event/service.go: the bus. A subscription is a number, and `cell` holds what its
-- pointer leads to; the locks make each method one step. (`Close` closes the channels
-- after it has released the lock: by then the bus lists none of them, and the once of each orders it
-- with `Unsubscribe`.) `none` is a panic: a send on, or a close
-- of, a closed channel. An event's type is the only part that the bus reads.

pub mod Wellformed
pub mod Runs
pub mod Names
use wmux.Prelude.{
  ℕ, suc, ◌+◌, ltb, ◌==◌, ◌||◌, if◌then◌else◌, Bool, true, false, List, [], ◌∷◌, ◌++◌, Option, none,
  some, Bytes, length, ◌>>=◌,
}
use wmux.Prelude.Int.{ℤ}

abbrev pub subscriber_buffer_size : ℕ
subscriber_buffer_size = 256

-- The values that the daemon puts into a payload.
pub data Value : Type 0 where
  text : Bytes → Value
  int : ℤ → Value
  time : ℕ → Value
  bool : Bool → Value

-- `type` is the number of the constant.
pub record Event : Type 0 where
  pub type : ℕ
  pub session_id : Bytes
  pub payload : List (Bytes × Value)

pub record Subscription : Type 0 where
  pub queue : List Event
  pub ch_closed : Bool
  pub once_done : Bool
  pub filter : Option (List ℕ)

-- `next` is the first number not yet used.
pub record Bus : Type 0 where
  pub subs : List ℕ
  pub closed : Bool
  pub cell : ℕ → Subscription
  pub next : ℕ

abbrev pub update : (ℕ → Subscription) → ℕ → Subscription → ℕ → Subscription
update f i x j = if i == j then x else f j

abbrev pub empty_cell : ℕ → Subscription
empty_cell i = record { queue = []; ch_closed = false; once_done = false; filter = none }

unfoldable pub new_bus : Bus
new_bus = record { subs = []; closed = false; cell = empty_cell; next = 0 }

-- `subscribe`: the number of the new subscription, and the bus.
unfoldable pub subscribe : Option (List ℕ) → Bus → ℕ × Bus
subscribe filter b =
    let made = record b { next = b.next + 1 } in
    if b.closed
    then (
      b.next,
      record made {
        cell =
            update b.cell b.next
              (record { queue = []; ch_closed = true; once_done = false; filter = filter });
      },
    )
    else (
      b.next,
      record made {
        cell =
            update b.cell b.next
              (record { queue = []; ch_closed = false; once_done = false; filter = filter });
        subs = b.subs ++ b.next ∷ [];
      },
    )

abbrev pub mem : ℕ → List ℕ → Bool
mem t [] = false
mem t (x ∷ xs) = x == t || mem t xs

abbrev pub wants : Option (List ℕ) → ℕ → Bool
wants none t = true
wants (some types) t = mem t types

-- One turn of the loop of `Publish`: the filter, then the send that does not block.
unfoldable pub deliver : Event → ℕ → Bus → Option Bus
deliver e i b =
    let s = b.cell i in
    if wants s.filter e.type
    then if s.ch_closed
      then none
      else if ltb (length s.queue) subscriber_buffer_size
      then some (record b { cell = update b.cell i (record s { queue = s.queue ++ e ∷ [] }) })
      else some b
    else some b

unfoldable pub deliver_all : Event → List ℕ → Bus → Option Bus
deliver_all e [] b = some b
deliver_all e (i ∷ is) b = do c ← deliver e i b; deliver_all e is c

unfoldable pub publish : Event → Bus → Option Bus
publish e b = if b.closed then some b else deliver_all e b.subs b

-- `removeSub`: the first one that is the same.
abbrev pub remove : ℕ → List ℕ → List ℕ
remove i [] = []
remove i (j ∷ js) = if j == i then js else j ∷ remove i js

abbrev close_channel : ℕ → Bus → Option Bus
close_channel i b =
    let s = b.cell i in
    if s.ch_closed
    then none
    else some
        (record b { cell = update b.cell i (record s { ch_closed = true; once_done = true }) })

-- `Unsubscribe`
unfoldable pub unsubscribe : ℕ → Bus → Option Bus
unsubscribe i b =
    if (b.cell i).once_done then some b else close_channel i (record b { subs = remove i b.subs })

unfoldable pub close_one : ℕ → Bus → Option Bus
close_one i b = if (b.cell i).once_done then some b else close_channel i b

unfoldable pub close_all : List ℕ → Bus → Option Bus
close_all [] b = some b
close_all (i ∷ is) b = do c ← close_one i b; close_all is c

-- `Close`
unfoldable pub close : Bus → Option Bus
close b = if b.closed then some b else close_all b.subs (record b { closed = true; subs = [] })

-- A receive from `Events()` that does not wait.
unfoldable pub receive : ℕ → Bus → Option Event × Bus
receive i b = elim (b.cell i).queue [
  | [] ↦ (none, b)
  | e ∷ es ↦ (some e, record b { cell = update b.cell i (record (b.cell i) { queue = es }) })
]
