-- ===== src/Prelude/Int.antt =====
-- Signed Go integers (`int`, `int64`), as values that the program carries and compares with none.
use wmux.Prelude.{ℕ}

-- `negsuc n` is -(n + 1).
pub data ℤ : Type 0 where
  pos : ℕ → ℤ
  negsuc : ℕ → ℤ
