-- ===== src/Session/Batcher.antt =====
-- internal/session/batcher.go: the batcher between the PTY and the output buffer. `signal` is the
-- channel `flush`, which holds one signal, and `returned` tells that the loop has ended. What
-- `doFlush` hands to `onFlush` is a result.
use wmux.Prelude.{
  ℕ, ◌*◌, ltb, leb, ◌==◌, ◌&&◌, if◌then◌else◌, Bool, true, false, [], ◌++◌, Option, none, some,
  Bytes, length,
}

abbrev pub min_batch_interval : ℕ
min_batch_interval = 1000000

abbrev pub default_flush_threshold : ℕ
default_flush_threshold = 32 * 1024

pub record Batcher : Type 0 where
  pub buf : Bytes
  pub interval : ℕ
  pub flush_threshold : ℕ
  pub done : Bool
  pub signal : Bool
  pub returned : Bool

unfoldable pub new_batcher : ℕ → Batcher
new_batcher interval = record {
  buf = [];
  interval = if ltb interval min_batch_interval then min_batch_interval else interval;
  flush_threshold = default_flush_threshold;
  done = false;
  signal = false;
  returned = false;
}

unfoldable pub flush_now : Batcher → Batcher
flush_now b = record b { signal = true }

unfoldable pub add : Bytes → Batcher → Batcher
unfolding flush_now
add p b =
    let c = record b { buf = b.buf ++ p } in
    if ltb 0 c.flush_threshold && leb c.flush_threshold (length c.buf) then flush_now c else c

unfoldable pub len : Batcher → ℕ
len b = length b.buf

unfoldable pub stop : Batcher → Batcher
stop b = record b { done = true }

unfoldable pub do_flush : Batcher → Batcher × Option Bytes
do_flush b = if length b.buf == 0 then (b, none) else (record b { buf = [] }, some b.buf)

-- What the select of the loop has picked.
pub data Woken : Type 0 where
  by_done by_flush by_tick : Woken

-- One turn of the loop; what is not ready is not picked.
unfoldable pub turn : Woken → Batcher → Batcher × Option Bytes
unfolding do_flush
turn woken b = if b.returned then (b, none) else elim woken [
  | by_done ↦ if b.done then (record b { returned = true }, none) else (b, none)
  | by_flush ↦ if b.signal then do_flush (record b { signal = false }) else (b, none)
  | by_tick ↦ do_flush b
]
