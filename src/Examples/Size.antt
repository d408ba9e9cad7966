-- ===== src/Examples/Size.antt =====
-- Sizes on concrete inputs.
use wmux.Prelude.{◌≡◌, refl, none, some, codes, bytes_eq}
use wmux.Prelude.Atoi.{atoi, atoi_fails}
use wmux.Platform.Size.{parse_size}

reads :
    (parse_size (λ s. s) (λ s. s) (codes "5KB") ≡ some 5120)
    × (parse_size (λ s. s) (λ s. s) (codes "7") ≡ some 7)
    × (parse_size (λ s. s) (λ s. s) (codes "-1MB") ≡ none)
    × (parse_size (λ s. s) (λ s. s) (codes "KB") ≡ none)
unfolding parse_size atoi atoi_fails bytes_eq
reads = (refl, refl, refl, refl)

-- A size of 2^64 bytes is accepted, and is 0.
wraps : parse_size (λ s. s) (λ s. s) (codes "17179869184GB") ≡ some 0
unfolding parse_size atoi atoi_fails bytes_eq
wraps = refl
