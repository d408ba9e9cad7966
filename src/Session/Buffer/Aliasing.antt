-- ===== src/Session/Buffer/Aliasing.antt =====
-- Recycled arrays: which array a write touches, and which ones a caller may still hold.
use wmux.Prelude.{ℕ, ◌<◌, ◌≡◌, ◌≢◌, Bool, List, [], ◌∷◌, Option, none, some, Bytes, arith}
use wmux.Session.Buffer.{
  Slice, Buffer, new_buffer, reclaim, append_to, check_pause, write, check_resume, read, read_n,
}
use wmux.Session.Buffer.Fifo.{Op, writes, reads, reads_n, apply, run}

abbrev pub Apart : Option ℕ → Option ℕ → Type 0
Apart (some a) (some b) = a ≢ b
Apart _ _ = Unit

abbrev pub Older : Option ℕ → ℕ → Type 0
Older (some a) n = a < n
Older none n = Unit

-- The array being filled, the one handed out last and the spare one are three arrays.
pub record IsApart (b : Buffer) : Type 0 where
  pub filled_handed : Apart b.array b.in_flight
  pub filled_spare : Apart b.array b.spare
  pub handed_spare : Apart b.in_flight b.spare
  pub filled_older : Older b.array b.fresh
  pub handed_older : Older b.in_flight b.fresh
  pub spare_older : Older b.spare b.fresh

new_buffer-IsApart : (high low : ℕ) → IsApart (new_buffer high low)
unfolding new_buffer
new_buffer-IsApart high low = record {
  filled_handed = tt;
  filled_spare = tt;
  handed_spare = tt;
  filled_older = tt;
  handed_older = tt;
  spare_older = tt;
}

write-IsApart : (grow : Bool) (p : Bytes) (b : Buffer) → IsApart b → IsApart (write grow p b)
unfolding write check_pause append_to reclaim
write-IsApart grow [] b v = ground arith
write-IsApart grow (x ∷ xs) b v = ground arith

read-IsApart : (b : Buffer) → IsApart b → IsApart (read b).1
unfolding read check_resume
read-IsApart b v = ground arith

read_n-IsApart : (n : ℕ) (b : Buffer) → IsApart b → IsApart (read_n n b).1
unfolding read_n check_resume
read_n-IsApart n b v = ground arith

apply-IsApart : (o : Op) (b : Buffer) → IsApart b → IsApart (apply o b).1
unfolding apply
apply-IsApart (writes grow p) b v = write-IsApart grow p b v
apply-IsApart reads b v = read-IsApart b v
apply-IsApart (reads_n n) b v = read_n-IsApart n b v

pub run-IsApart : (os : List Op) (b : Buffer) → IsApart b → IsApart (run os b).1
unfolding run
run-IsApart [] b v = v
run-IsApart (o ∷ os) b v = run-IsApart os (apply o b).1 (apply-IsApart o b v)

-- No write before the next full drain touches array `a`.
pub record IsClear (a : ℕ) (b : Buffer) : Type 0 where
  pub not_filled : b.array ≢ some a
  pub not_spare : b.spare ≢ some a
  pub older : a < b.fresh

write-IsClear :
    (grow : Bool) (p : Bytes) (a : ℕ) (b : Buffer) → IsClear a b → IsClear a (write grow p b)
unfolding write check_pause append_to reclaim
write-IsClear grow [] a b v = ground arith
write-IsClear grow (x ∷ xs) a b v = ground arith

abbrev pub write_all : List (Bool × Bytes) → Buffer → Buffer
write_all [] b = b
write_all ((grow, p) ∷ ws) b = write_all ws (write grow p b)

write_all-IsClear :
    (ws : List (Bool × Bytes)) (a : ℕ) (b : Buffer) → IsClear a b → IsClear a (write_all ws b)
write_all-IsClear [] a b v = v
write_all-IsClear ((grow, p) ∷ ws) a b v =
    write_all-IsClear ws a (write grow p b) (write-IsClear grow p a b v)

read-IsClear : (a : ℕ) (b : Buffer) → IsApart b → (read b).0.array ≡ some a → IsClear a (read b).1
unfolding read check_resume
read-IsClear a b v e = ground arith

read_n-IsClear :
    (n a : ℕ) (b : Buffer) → IsApart b → (read_n n b).0.array ≡ some a → IsClear a (read_n n b).1
unfolding read_n check_resume
read_n-IsClear n a b v e = ground arith

read_slice_safe :
    (high low a : ℕ) (os : List Op) (ws : List (Bool × Bytes))
    → (read (run os (new_buffer high low)).1).0.array ≡ some a
    → (write_all ws (read (run os (new_buffer high low)).1).1).array ≢ some a
read_slice_safe high low a os ws e =
    let b = (run os (new_buffer high low)).1 in
    let v = run-IsApart os (new_buffer high low) (new_buffer-IsApart high low) in
    (write_all-IsClear ws a (read b).1 (read-IsClear a b v e)).not_filled

read_n_slice_safe :
    (high low n a : ℕ) (os : List Op) (ws : List (Bool × Bytes))
    → (read_n n (run os (new_buffer high low)).1).0.array ≡ some a
    → (write_all ws (read_n n (run os (new_buffer high low)).1).1).array ≢ some a
read_n_slice_safe high low n a os ws e =
    let b = (run os (new_buffer high low)).1 in
    let v = run-IsApart os (new_buffer high low) (new_buffer-IsApart high low) in
    (write_all-IsClear ws a (read_n n b).1 (read_n-IsClear n a b v e)).not_filled

-- `ReadN`, or `Read` where there is no number.
abbrev pub hand_out : Option ℕ → Buffer → Slice × Buffer
hand_out none b = read b
hand_out (some n) b = read_n n b

-- After any operations on a new buffer, the slice that `Read` or `ReadN` hands out, be it the
-- buffer's own array or a copy, stands in an array that no later write fills, for as long as there
-- is no further read.
pub hand_out_slice_safe :
    (high low a : ℕ) (count : Option ℕ) (os : List Op) (ws : List (Bool × Bytes))
    → (hand_out count (run os (new_buffer high low)).1).0.array ≡ some a
    → (write_all ws (hand_out count (run os (new_buffer high low)).1).1).array ≢ some a
hand_out_slice_safe high low a none os ws e = read_slice_safe high low a os ws e
hand_out_slice_safe high low a (some n) os ws e = read_n_slice_safe high low n a os ws e
