-- ===== src/Prelude/Atoi.antt =====
-- strconv.Atoi of Go on a 64-bit system: the number that it returns, for an error too, which is 0 for
-- text that is no number and the nearest int for one that is out of range.
use wmux.Prelude.{
  ℕ, zero, suc, ◌≤◌, ◌<◌, ◌≡◌, false, arith, ◌+◌, ◌-◌, ◌*◌, ◌^◌, leb, ltb, ◌==◌, ◌&&◌,
  if◌then◌else◌, Bool, true, [], ◌∷◌, Bytes,
}
use wmux.Prelude.Int.{ℤ, pos, negsuc}

pub data Parsed : Type 0 where
  value : ℕ → Parsed
  syntax range : Parsed

-- ParseUint, digit by digit.
unfoldable pub parse_uint : Bytes → ℕ → Parsed
parse_uint [] n = value n
parse_uint (c ∷ s) n =
    if leb b'0' c && leb c b'9'
    then if ltb (n * 10 + (c - b'0')) (2 ^ 64) then parse_uint s (n * 10 + (c - b'0')) else range
    else syntax

at_most : ℕ → ℕ → ℕ
at_most m n = if leb n m then n else m

negative : ℕ → ℤ
negative zero = pos 0
negative (suc n) = negsuc n

signed : Parsed → ℤ
unfolding at_most
signed (value n) = pos (at_most (2 ^ 63 - 1) n)
signed syntax = pos 0
signed range = pos (2 ^ 63 - 1)

signed_negative : Parsed → ℤ
unfolding at_most negative
signed_negative (value n) = negative (at_most (2 ^ 63) n)
signed_negative syntax = pos 0
signed_negative range = negative (2 ^ 63)

digits : Bytes → Parsed
unfolding parse_uint
digits [] = syntax
digits (c ∷ s) = parse_uint (c ∷ s) 0

unfoldable pub atoi : Bytes → ℤ
unfolding signed signed_negative digits
atoi [] = pos 0
atoi (c ∷ s) =
    if c == b'-'
    then signed_negative (digits s)
    else if c == b'+'
    then signed (digits s)
    else signed (digits (c ∷ s))

out_of_range : ℕ → Parsed → Bool
out_of_range m (value n) = ltb m n
out_of_range m syntax = true
out_of_range m range = true

-- Whether Atoi reports an error.
unfoldable pub atoi_fails : Bytes → Bool
unfolding out_of_range digits
atoi_fails [] = true
atoi_fails (c ∷ s) =
    if c == b'-'
    then out_of_range (2 ^ 63) (digits s)
    else out_of_range (2 ^ 63 - 1) (digits (if c == b'+' then s else c ∷ s))

-- Text that begins with a digit has no sign.
pub atoi-digits :
    (c : ℕ) (s : Bytes) (n : ℕ)
    → b'0' ≤ c
    → parse_uint (c ∷ s) 0 ≡ value n
    → n < 2 ^ 63
    → (atoi (c ∷ s) ≡ pos n) × (atoi_fails (c ∷ s) ≡ false)
unfolding atoi atoi_fails
atoi-digits c s n h e k =
    let minus : (c == b'-') ≡ false = ground arith in
    let plus : (c == b'+') ≡ false = ground arith in
    rw (minus, plus, digits, e) (ground arith, ground arith)
