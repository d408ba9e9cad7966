-- ===== src/Protocol/Streams.antt =====
-- The documented behaviour of a lossless io.Writer, and of io.ReadFull over a stream of bytes.
use wmux.Prelude.{
  ℕ, ◌≤◌, ◌<◌, ◌≡◌, refl, leb, Bool, true, if◌then◌else◌, [], ◌++◌, Bytes, length, take, drop,
  arith,
}
use wmux.Protocol.{Read, full, ended}

-- Each write succeeds and appends its bytes to what the writer holds.
pub record Appends {W : Type 0} (write : Bytes → W → W × Bool) (held : W → Bytes) : Type 0 where
  pub fine : (p : Bytes) (w : W) → (write p w).1 ≡ true
  pub appends : (p : Bytes) (w : W) → held (write p w).0 ≡ held w ++ p

-- `left r` is what is still to be read.
pub record Streams {R : Type 0} (read_full : ℕ → R → Read R) (left : R → Bytes) : Type 0 where
  pub enough :
      (n : ℕ) (r : R)
      → n ≤ length (left r)
      → (s : R) × (read_full n r ≡ full (take n (left r)) s) × (left s ≡ drop n (left r))
  pub too_few :
      (n : ℕ) (r : R) → length (left r) < n → (s : R) × (read_full n r ≡ ended s) × (left s ≡ [])

-- bytes.Buffer.
abbrev pub buffer_write : Bytes → Bytes → Bytes × Bool
buffer_write p w = (w ++ p, true)

pub buffer_write-Appends : Appends buffer_write (λ w. w)
buffer_write-Appends = record { fine = λ p w. refl; appends = λ p w. refl }

abbrev pub buffer_read_full : ℕ → Bytes → Read Bytes
buffer_read_full n r = if leb n (length r) then full (take n r) (drop n r) else ended []

pub buffer_read_full-Streams : Streams buffer_read_full (λ r. r)
buffer_read_full-Streams = record {
  enough = λ n r h. (drop n r, ground arith, refl);
  too_few = λ n r h. ([], ground arith, refl);
}
