-- ===== src/Platform/Size.antt =====
-- `ParseSize` of internal/platform/history/entity.go. `strings.TrimSpace` and `strings.ToUpper` are
-- arguments; an int64 is the number below 2^64 that stands for it.
use wmux.Prelude.{
  ℕ, ◌*◌, ◌-◌, ◌%◌, ◌^◌, leb, ◌&&◌, if◌then◌else◌, Bool, [], ◌∷◌, Option, none, some, Bytes, codes,
  bytes_eq, length, take, drop,
}
use wmux.Prelude.Int.{ℤ, pos, negsuc}
use wmux.Prelude.Atoi.{atoi, atoi_fails}

abbrev kilobyte : ℕ
kilobyte = 1024

abbrev megabyte : ℕ
megabyte = 1024 * 1024

abbrev gigabyte : ℕ
gigabyte = 1024 * 1024 * 1024

-- `strings.HasSuffix` for a suffix of two bytes, and `strings.TrimSuffix` where it is there.
abbrev ends_with : Bytes → Bytes → Bool
ends_with s suffix = leb 2 (length s) && bytes_eq (drop (length s - 2) s) suffix

abbrev without_suffix : Bytes → Bytes
without_suffix s = take (length s - 2) s

-- The product wraps around.
times : ℤ → ℕ → Option ℕ
times (negsuc n) multiplier = none
times (pos n) multiplier = some (n * multiplier % 2 ^ 64)

parse_number : Bytes → ℕ → Option ℕ
unfolding times
parse_number s multiplier = if atoi_fails s then none else times (atoi s) multiplier

unfoldable pub parse_size : (Bytes → Bytes) → (Bytes → Bytes) → Bytes → Option ℕ
unfolding parse_number
parse_size trim_space to_upper [] = none
parse_size trim_space to_upper (c ∷ s) =
    let upper = to_upper (trim_space (c ∷ s)) in
    if ends_with upper (codes "GB")
    then parse_number (without_suffix upper) gigabyte
    else if ends_with upper (codes "MB")
    then parse_number (without_suffix upper) megabyte
    else if ends_with upper (codes "KB")
    then parse_number (without_suffix upper) kilobyte
    else parse_number upper 1
