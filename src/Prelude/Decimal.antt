-- ===== src/Prelude/Decimal.antt =====
-- Decimal text: the verb %d of fmt, and strings.Split at one byte.
use wmux.Prelude.{
  ℕ, zero, suc, ◌<◌, ◌^◌, ◌≤◌, ◌≡◌, sym, ap, ◌∙◌, Bool-cases, inl, inr, ◌+◌, ◌-◌, ◌*◌, ◌/◌, ◌%◌,
  ltb, leb, ◌==◌, ◌&&◌, if◌then◌else◌, Bool, false, refl, List, [], ◌∷◌, Bytes, arith,
}
use wmux.Prelude.Atoi.{value, parse_uint, atoi, atoi_fails, atoi-digits}
use wmux.Prelude.Int.{ℤ, pos, negsuc}
use wmux.Prelude.Search.{AllBytes}

-- The digits of `n` before `rest`, the last one first; every turn takes one.
unfoldable pub digits_before : ℕ → ℕ → Bytes → Bytes
digits_before zero n rest = rest
digits_before (suc f) n rest =
    let more = digits_before f (n / 10) ((b'0' + n % 10) ∷ rest) in
    if ltb n 10 then (b'0' + n) ∷ rest else more

unfoldable pub decimal : ℤ → Bytes
unfolding digits_before
decimal (pos n) = digits_before (suc n) n []
decimal (negsuc n) = b'-' ∷ digits_before (suc (suc n)) (suc n) []

-- A digit or a sign.
abbrev pub is_numeral : ℕ → Bool
is_numeral c = leb 45 c && leb c b'9'

digits_before-numeral :
    (f n : ℕ) (rest : Bytes)
    → AllBytes is_numeral rest
    → AllBytes is_numeral (digits_before f n rest)
unfolding digits_before
digits_before-numeral zero n rest h = h
digits_before-numeral (suc f) n rest h =
    ground (arith, digits_before-numeral f (n / 10) ((b'0' + n % 10) ∷ rest))

pub decimal-numeral : (n : ℤ) → AllBytes is_numeral (decimal n)
unfolding decimal
decimal-numeral (pos n) = digits_before-numeral (suc n) n [] tt
decimal-numeral (negsuc n) = (refl, digits_before-numeral (suc (suc n)) (suc n) [] tt)

abbrev with_head : ℕ → List Bytes → List Bytes
with_head c [] = (c ∷ []) ∷ []
with_head c (s ∷ ss) = (c ∷ s) ∷ ss

-- Split at every `b`; there is always a part.
unfoldable pub split_byte : ℕ → Bytes → List Bytes
split_byte b [] = [] ∷ []
split_byte b (c ∷ s) = let rest = split_byte b s in if c == b then [] ∷ rest else with_head c rest

last_digit :
    (n : ℕ) (rest : Bytes)
    → n < 2 ^ 64
    → parse_uint ((b'0' + n % 10) ∷ rest) (n / 10) ≡ parse_uint rest n
unfolding parse_uint
last_digit n rest k =
    let e : n / 10 * 10 + (b'0' + n % 10 - b'0') ≡ n = omega arith in rw e (ground arith)

-- The digits are read back.
digits_before-parse_uint :
    (f n : ℕ) (rest : Bytes)
    → n < f
    → n < 2 ^ 64
    → parse_uint (digits_before f n rest) 0 ≡ parse_uint rest n
unfolding digits_before parse_uint
digits_before-parse_uint zero n rest h k = elim h [ ]
digits_before-parse_uint (suc f) n rest h k = elim (Bool-cases (ltb n 10)) [
  | inl small ↦ ground arith
  | inr large ↦
      rw (large, digits_before)
        (digits_before-parse_uint f (n / 10) ((b'0' + n % 10) ∷ rest) (ground arith) (omega arith)
          ∙ last_digit n rest k)
]

-- The first digit is one.
digits_before-head :
    (f n : ℕ) (rest : Bytes)
    → n < f
    → (c : ℕ) × (s : Bytes) × (digits_before f n rest ≡ c ∷ s) × (b'0' ≤ c)
unfolding digits_before
digits_before-head zero n rest h = elim h [ ]
digits_before-head (suc f) n rest h = elim (Bool-cases (ltb n 10)) [
  | inl small ↦ (b'0' + n, rest, rw small refl, omega arith)
  | inr large ↦
      rw (large, digits_before)
        (digits_before-head f (n / 10) ((b'0' + n % 10) ∷ rest) (ground arith))
]

pub atoi-decimal :
    (n : ℕ) → n < 2 ^ 63 → (atoi (decimal (pos n)) ≡ pos n) × (atoi_fails (decimal (pos n)) ≡ false)
unfolding decimal parse_uint
atoi-decimal n h =
    let (c, s, at, digit) = digits_before-head (suc n) n [] (omega arith) in
    let read : parse_uint (c ∷ s) 0 ≡ value n =
      ap (λ t. parse_uint t 0) (sym at)
      ∙ digits_before-parse_uint (suc n) n [] (omega arith) (omega arith) in
    rw at (atoi-digits c s n digit read h)
