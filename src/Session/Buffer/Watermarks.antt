-- ===== src/Session/Buffer/Watermarks.antt =====
-- The paused flag follows the two watermarks.
use wmux.Prelude.{
  ℕ, ◌≤◌, ◌<◌, ◌≡◌, Bool, true, false, List, [], ◌∷◌, Bytes, arith, length, length-append,
  length-drop,
}
use wmux.Session.Buffer.{
  Buffer, new_buffer, reclaim, append_to, check_pause, write, check_resume, read, read_n,
}
use wmux.Session.Buffer.Fifo.{Op, writes, reads, reads_n, apply, run}

-- Above the high mark the buffer is paused, and it is not paused below the low mark.
pub record IsRegulated (b : Buffer) : Type 0 where
  pub marks : b.low_watermark ≤ b.high_watermark
  pub running : b.paused ≡ false → length b.content < b.high_watermark
  pub waiting : b.paused ≡ true → b.low_watermark ≤ length b.content
  pub low_positive : 0 < b.low_watermark

new_buffer-IsRegulated : (high low : ℕ) → 0 < low → low ≤ high → IsRegulated (new_buffer high low)
unfolding new_buffer
new_buffer-IsRegulated high low p h = ground arith

write-IsRegulated :
    (grow : Bool) (p : Bytes) (b : Buffer) → IsRegulated b → IsRegulated (write grow p b)
unfolding write check_pause append_to reclaim
write-IsRegulated grow [] b v = ground arith
write-IsRegulated grow (x ∷ xs) b v = ground (arith, length-append b.content (x ∷ xs))

read-IsRegulated : (b : Buffer) → IsRegulated b → IsRegulated (read b).1
unfolding read check_resume
read-IsRegulated b v = ground arith

read_n-IsRegulated : (n : ℕ) (b : Buffer) → IsRegulated b → IsRegulated (read_n n b).1
unfolding read_n check_resume
read_n-IsRegulated n b v = ground (arith, length-drop n b.content)

apply-IsRegulated : (o : Op) (b : Buffer) → IsRegulated b → IsRegulated (apply o b).1
unfolding apply
apply-IsRegulated (writes grow p) b v = write-IsRegulated grow p b v
apply-IsRegulated reads b v = read-IsRegulated b v
apply-IsRegulated (reads_n n) b v = read_n-IsRegulated n b v

run-IsRegulated : (os : List Op) (b : Buffer) → IsRegulated b → IsRegulated (run os b).1
unfolding run
run-IsRegulated [] b v = v
run-IsRegulated (o ∷ os) b v = run-IsRegulated os (apply o b).1 (apply-IsRegulated o b v)

-- From a new buffer with 0 < low ≤ high, after any operations: a buffer that is not paused holds
-- less than the high watermark, and one that is paused holds at least the low watermark.
pub run-new_buffer-IsRegulated :
    (high low : ℕ) (os : List Op)
    → 0 < low
    → low ≤ high
    → IsRegulated (run os (new_buffer high low)).1
run-new_buffer-IsRegulated high low os p h =
    run-IsRegulated os _ (new_buffer-IsRegulated high low p h)
