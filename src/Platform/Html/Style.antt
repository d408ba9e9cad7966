-- ===== src/Platform/Html/Style.antt =====
-- internal/platform/ansi/html.go: colours, the style of a state, and `applySGR`.
pub mod Clean
use wmux.Prelude.{
  ℕ, zero, suc, ◌+◌, ◌-◌, ◌*◌, ◌/◌, ◌%◌, leb, ltb, ◌==◌, ◌&&◌, if◌then◌else◌, Bool, true, false,
  List, [], ◌∷◌, ◌++◌, Option, none, some, Bytes, codes,
}
use wmux.Prelude.Int.{ℤ, pos, negsuc}
use wmux.Prelude.Atoi.{atoi, atoi_fails}
use wmux.Prelude.Decimal.{decimal, split_byte}

abbrev pub basic16 : List Bytes
basic16 =
    codes "#000000"
    ∷ codes "#aa0000"
    ∷ codes "#00aa00"
    ∷ codes "#aa5500"
    ∷ codes "#0000aa"
    ∷ codes "#aa00aa"
    ∷ codes "#00aaaa"
    ∷ codes "#aaaaaa"
    ∷ codes "#555555"
    ∷ codes "#ff5555"
    ∷ codes "#55ff55"
    ∷ codes "#ffff55"
    ∷ codes "#5555ff"
    ∷ codes "#ff55ff"
    ∷ codes "#55ffff"
    ∷ codes "#ffffff"
    ∷ []

-- The index is in range wherever the code reads the table.
unfoldable pub nth : List Bytes → ℕ → Bytes
nth [] i = []
nth (x ∷ xs) zero = x
nth (x ∷ xs) (suc i) = nth xs i

-- sgrState; an empty colour is none.
pub record Sgr : Type 0 where
  pub bold : Bool
  pub italic : Bool
  pub underline : Bool
  pub fg : Bytes
  pub bg : Bytes

abbrev pub reset : Sgr
reset = record { bold = false; italic = false; underline = false; fg = []; bg = [] }

-- strings.Join with ";".
unfoldable pub join : List Bytes → Bytes
join [] = []
join (p ∷ []) = p
join (p ∷ q ∷ ps) = p ++ b';' ∷ join (q ∷ ps)

abbrev pub part : Bool → Bytes → List Bytes
part true p = p ∷ []
part false p = []

abbrev pub coloured : Bytes → Bytes → List Bytes
coloured name [] = []
coloured name (c ∷ s) = (name ++ c ∷ s) ∷ []

unfoldable pub style : Sgr → Bytes
unfolding join
style s = join (
    part s.bold (codes "font-weight:bold")
    ++ (part s.italic (codes "font-style:italic")
        ++ (part s.underline (codes "text-decoration:underline")
            ++ (coloured (codes "color:") s.fg ++ coloured (codes "background-color:") s.bg))))

unfoldable pub rgb : ℤ → ℤ → ℤ → Bytes
rgb r g b = codes "rgb(" ++ (decimal r ++ b',' ∷ (decimal g ++ b',' ∷ (decimal b ++ codes ")")))

unfoldable pub color256 : ℤ → Bytes
color256 (negsuc n) = []
color256 (pos n) =
    if ltb 255 n
    then []
    else if ltb n 16
    then nth basic16 n
    else if ltb n 232
    then rgb (pos ((n - 16) / 36 * 51)) (pos ((n - 16) / 6 % 6 * 51)) (pos ((n - 16) % 6 * 51))
    else rgb (pos ((n - 232) * 10 + 8)) (pos ((n - 232) * 10 + 8)) (pos ((n - 232) * 10 + 8))

-- What follows a 38 or a 48: the colour, if one is set, and how many codes it takes.
unfoldable pub indexed : List Bytes → Option Bytes × ℕ
indexed [] = (none, 1)
indexed (i ∷ cs) = (some (color256 (atoi i)), 2)

unfoldable pub truecolor : List Bytes → Option Bytes × ℕ
truecolor (r ∷ g ∷ b ∷ cs) = (some (rgb (atoi r) (atoi g) (atoi b)), 4)
truecolor _ = (none, 1)

abbrev pub equals : ℤ → ℕ → Bool
equals (pos n) k = n == k
equals (negsuc n) k = false

unfoldable pub extended : List Bytes → Option Bytes × ℕ
unfolding indexed truecolor
extended [] = (none, 1)
extended (m ∷ cs) =
    if equals (atoi m) 5 then indexed cs else if equals (atoi m) 2 then truecolor cs else (none, 1)

abbrev pub set_fg : Option Bytes → Sgr → Sgr
set_fg none s = s
set_fg (some c) s = record s { fg = c }

abbrev pub set_bg : Option Bytes → Sgr → Sgr
set_bg none s = s
set_bg (some c) s = record s { bg = c }

unfoldable pub within : ℕ → ℕ → ℕ → Bool
within lo hi n = leb lo n && leb n hi

-- One code, with those behind it: the state, and how many of them it takes.
unfoldable pub apply_code : ℤ → List Bytes → Sgr → Sgr × ℕ
unfolding within
apply_code (negsuc n) cs s = (s, 0)
apply_code (pos n) cs s =
    if n == 0
    then (reset, 0)
    else if n == 1
    then (record s { bold = true }, 0)
    else if n == 3
    then (record s { italic = true }, 0)
    else if n == 4
    then (record s { underline = true }, 0)
    else if n == 22
    then (record s { bold = false }, 0)
    else if n == 23
    then (record s { italic = false }, 0)
    else if n == 24
    then (record s { underline = false }, 0)
    else if within 30 37 n
    then (record s { fg = nth basic16 (n - 30) }, 0)
    else if n == 38
    then (set_fg (extended cs).0 s, (extended cs).1)
    else if n == 39
    then (record s { fg = [] }, 0)
    else if within 40 47 n
    then (record s { bg = nth basic16 (n - 40) }, 0)
    else if n == 48
    then (set_bg (extended cs).0 s, (extended cs).1)
    else if n == 49
    then (record s { bg = [] }, 0)
    else if within 90 97 n
    then (record s { fg = nth basic16 (n - 90 + 8) }, 0)
    else if within 100 107 n
    then (record s { bg = nth basic16 (n - 100 + 8) }, 0)
    else (s, 0)

-- The loop over the codes; `skip` of them have been taken already.
unfoldable pub apply_codes : List Bytes → ℕ → Sgr → Sgr
apply_codes [] skip s = s
apply_codes (c ∷ cs) (suc skip) s = apply_codes cs skip s
apply_codes (c ∷ cs) zero s =
    let (t, skip) = if atoi_fails c then (s, 0) else apply_code (atoi c) cs s in
    apply_codes cs skip t

unfoldable pub apply_sgr : Bytes → Sgr → Sgr
unfolding apply_codes
apply_sgr [] s = reset
apply_sgr (c ∷ params) s = apply_codes (split_byte b';' (c ∷ params)) 0 s
