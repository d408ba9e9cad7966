-- ===== src/Session/ReadLoop.antt =====
-- readLoop and emulatorLoop of internal/session/service.go, beside the batcher and the buffer that they
-- feed. The screen emulator is an argument, as a function on its state: what it leaves of it on a chunk,
-- be it by returning or by a panic, which the loop recovers from. The tracer and the pool of slices
-- change nothing.
pub mod Kept
use wmux.Prelude.{
  ℕ, ltb, if◌then◌else◌, Bool, true, false, List, [], ◌∷◌, ◌++◌, Option, none, some, Bytes, length,
}
use wmux.Session.Buffer as Buffer
use wmux.Session.Buffer.{Buffer}
use wmux.Session.Batcher.{Batcher, new_batcher, Woken, add, stop, turn}

abbrev pub emulator_chan_size : ℕ
emulator_chan_size = 64

-- A session with its two goroutines. `ended` is whether `emulatorCh` is closed, and `history` has the
-- chunks that were written to the history writer, if there is one.
pub record Reading (E : Type 0) : Type 0 where
  pub buffer : Buffer
  pub batcher : Batcher
  pub emulator : E
  pub emulator_ch : List Bytes
  pub ended : Bool
  pub history : Option (List Bytes)
  pub last_activity : ℕ

-- A round of readLoop that finds a chunk, or none, and maybe an error beside it; a round of
-- emulatorLoop; a turn of the batcher's loop, whose flush the buffer takes; the stop of the batcher; and a
-- read of the buffer.
pub data Step : Type 0 where
  reads : Bytes → Bool → ℕ → Step
  emulates : Step
  turns : Woken → Bool → Step
  stops : Step
  hands_out : Step

written : Bytes → Option (List Bytes) → Option (List Bytes)
written c none = none
written c (some h) = some (h ++ c ∷ [])

flushed : Bool → Option Bytes → Buffer → Buffer
flushed grow none b = b
flushed grow (some p) b = Buffer.write grow p b

module _ {E : Type 0} where
  -- What `Create` makes of the two; `logging` is whether it is given a history writer.
  unfoldable pub new_reading : ℕ → ℕ → ℕ → ℕ → E → Bool → Reading E
  unfolding new_batcher
  new_reading high low interval now emulator logging = record {
    buffer = Buffer.new_buffer high low;
    batcher = new_batcher interval;
    emulator = emulator;
    emulator_ch = [];
    ended = false;
    history = if logging then some [] else none;
    last_activity = now;
  }

  -- The select that sends to the emulator, or drops the chunk.
  unfoldable pub send : Bytes → Reading E → Reading E
  send c r =
      if ltb (length r.emulator_ch) emulator_chan_size
      then record r { emulator_ch = r.emulator_ch ++ c ∷ [] }
      else r

  -- The part for a chunk that is not empty.
  unfoldable pub take_chunk : Bytes → ℕ → Reading E → Reading E
  unfolding send written
  take_chunk [] now r = r
  take_chunk (b ∷ bs) now r =
      let s = send (b ∷ bs) (record r { batcher = add (b ∷ bs) r.batcher }) in
      record s { history = written (b ∷ bs) s.history; last_activity = now }

  unfoldable pub read_round : Bytes → Bool → ℕ → Reading E → Reading E
  unfolding take_chunk
  read_round c failed now r =
      if r.ended
      then r
      else if r.buffer.paused
      then r
      else let s = take_chunk c now r in if failed then record s { ended = true } else s

  unfoldable pub emulate : (Bytes → E → E) → Reading E → Reading E
  emulate process r = elim r.emulator_ch [
    | [] ↦ r
    | c ∷ cs ↦ record r { emulator = process c r.emulator; emulator_ch = cs }
  ]

  unfoldable pub batch_turn : Woken → Bool → Reading E → Reading E
  unfolding turn flushed
  batch_turn w grow r =
      let (b, p) = turn w r.batcher in record r { batcher = b; buffer = flushed grow p r.buffer }

  -- A step, and the bytes that it hands out.
  unfoldable pub step : (Bytes → E → E) → Step → Reading E → Reading E × Bytes
  unfolding read_round emulate batch_turn
  step process (reads c failed now) r = (read_round c failed now r, [])
  step process emulates r = (emulate process r, [])
  step process (turns w grow) r = (batch_turn w grow r, [])
  step process stops r = (record r { batcher = stop r.batcher }, [])
  step process hands_out r = let (s, b) = Buffer.read r.buffer in (record r { buffer = b }, s.bytes)

  unfoldable pub run : (Bytes → E → E) → List Step → Reading E → Reading E × Bytes
  unfolding step
  run process [] r = (r, [])
  run process (o ∷ os) r =
      let (s, p) = step process o r in let (t, q) = run process os s in (t, p ++ q)
