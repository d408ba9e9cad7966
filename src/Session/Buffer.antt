-- ===== src/Session/Buffer.antt =====
-- internal/session/backpressure.go: `Buffer`, the output buffer with watermarks, and how it recycles
-- its backing arrays. The lock makes each method one step; the tracer records and changes nothing.
-- An array is a number; `fresh` is the next one the allocator gives. Whether an append has to
-- reallocate depends on capacities that the runtime chooses: it is the argument `grow`.
pub mod Fifo
pub mod Watermarks
pub mod Aliasing
use wmux.Prelude.{
  ℕ, ◌+◌, ◌≤◌, ◌<◌, ◌≡◌, refl, leb, ltb, ◌==◌, ◌&&◌, if◌then◌else◌, Bool, true, false, List, [],
  ◌∷◌, ◌++◌, Option, none, some, Bytes, length, take, drop,
}

-- `array` is the backing array of `data`, `none` for a nil slice.
pub record Buffer : Type 0 where
  pub content : Bytes
  pub array : Option ℕ
  pub in_flight : Option ℕ
  pub spare : Option ℕ
  pub high_watermark : ℕ
  pub low_watermark : ℕ
  pub paused : Bool
  pub fresh : ℕ

unfoldable pub new_buffer : ℕ → ℕ → Buffer
new_buffer high low = record {
  content = [];
  array = none;
  in_flight = none;
  spare = none;
  high_watermark = high;
  low_watermark = low;
  paused = false;
  fresh = 0;
}

-- `if len(b.data) == 0 && b.spare != nil { b.data = b.spare[:0]; b.spare = nil }`
unfoldable pub reclaim : Buffer → Buffer
reclaim b = elim b.spare [
  | some a ↦ if length b.content == 0 then record b { array = some a; spare = none } else b
  | none ↦ b
]

-- `append(b.data, p...)`: nothing happens to a slice for an empty `p`; a nil slice, or one whose array is too small, gets
-- a new array.
unfoldable pub append_to : Bool → Bytes → Buffer → Buffer
append_to grow [] b = b
append_to grow (x ∷ xs) b =
    let c = record b { content = b.content ++ x ∷ xs } in
    let moved = record c { array = some b.fresh; fresh = b.fresh + 1 } in
    elim b.array [ none ↦ moved | some a ↦ if grow then moved else c ]

unfoldable pub check_pause : Buffer → Buffer
check_pause b = if leb b.high_watermark (length b.content) then record b { paused = true } else b

-- `Write`; it always reports len(p) and no error.
unfoldable pub write : Bool → Bytes → Buffer → Buffer
unfolding reclaim append_to check_pause
write grow p b = check_pause (append_to grow p (reclaim b))

unfoldable pub check_resume : ℕ → Buffer → Buffer
check_resume remaining b =
    if b.paused && ltb remaining b.low_watermark then record b { paused = false } else b

-- What a read hands out: the bytes, and the array they stand in.
pub record Slice : Type 0 where
  pub bytes : Bytes
  pub array : Option ℕ

abbrev pub nil : Slice
nil = record { bytes = []; array = none }

abbrev pub drained : Buffer → Buffer
drained b = record b { spare = b.in_flight; in_flight = b.array; content = []; array = none }

abbrev pub whole : Buffer → Slice
whole b = record { bytes = b.content; array = b.array }

-- `Read`
unfoldable pub read : Buffer → Slice × Buffer
unfolding check_resume
read b = if length b.content == 0 then (nil, b) else (whole b, check_resume 0 (drained b))

-- `ReadN`. A partial read copies into a new array; its `n` is not negative.
unfoldable pub read_n : ℕ → Buffer → Slice × Buffer
unfolding check_resume
read_n n b =
    if length b.content == 0
    then (nil, b)
    else if leb (length b.content) n
    then (whole b, check_resume 0 (drained b))
    else (
      record { bytes = take n b.content; array = some b.fresh },
      check_resume (length (drop n b.content))
          (record b { content = drop n b.content; fresh = b.fresh + 1 }),
    )
