-- ===== src/Platform/Html/Style/Clean.antt =====
-- The style of a state holds no quote, no bracket and no entity, whatever parameters have come.
use wmux.Prelude.{
  ℕ, zero, suc, ◌+◌, ◌-◌, ◌≡◌, refl, ltb, ◌==◌, ◌&&◌, not, Bool, true, false, Bool-cases, inl, inr,
  List, [], ◌∷◌, ◌++◌, if◌then◌else◌, Option, none, some, Bytes, codes, arith,
}
use wmux.Prelude.Int.{ℤ, pos, negsuc}
use wmux.Prelude.Atoi.{atoi, atoi_fails}
use wmux.Prelude.Decimal.{decimal, split_byte, is_numeral, decimal-numeral}
use wmux.Prelude.Search.{AllBytes, AllBytes-append, all_bytes, AllBytes-all_bytes}
use wmux.Platform.Html.Style.{
  Sgr, reset, style, join, part, coloured, basic16, nth, rgb, color256, indexed, truecolor, equals,
  extended, set_fg, set_bg, apply_code, apply_codes, apply_sgr,
}

abbrev pub is_clean : ℕ → Bool
is_clean c = not (c == b'<') && (not (c == b'>') && (not (c == 34) && not (c == b'&')))

abbrev pub Clean : Bytes → Type 0
Clean = AllBytes is_clean

-- The colours of the state are clean.
pub record IsClean (s : Sgr) : Type 0 where
  pub fg : Clean s.fg
  pub bg : Clean s.bg

pub reset-IsClean : IsClean reset
reset-IsClean = record { fg = tt; bg = tt }

numeral-Clean : (s : Bytes) → AllBytes is_numeral s → Clean s
numeral-Clean [] h = tt
numeral-Clean (c ∷ s) h = (ground (arith, h.0), numeral-Clean s h.1)

rgb-Clean : (r g b : ℤ) → Clean (rgb r g b)
unfolding rgb
rgb-Clean r g b =
    let n = λ (k : ℤ). numeral-Clean (decimal k) (decimal-numeral k) in
    let ends = AllBytes-append is_clean (decimal b) (codes ")") (n b) (refl, tt) in
    let green =
      AllBytes-append is_clean (decimal g) (b',' ∷ (decimal b ++ codes ")")) (n g) (refl, ends) in
    AllBytes-append is_clean (codes "rgb(") _ (refl, (refl, (refl, (refl, tt))))
      (AllBytes-append is_clean (decimal r) _ (n r) (refl, green))

-- Every entry of the table.
abbrev all_clean : List Bytes → Bool
all_clean [] = true
all_clean (s ∷ ss) = all_bytes is_clean s && all_clean ss

nth-Clean_all : (ss : List Bytes) (i : ℕ) → all_clean ss ≡ true → Clean (nth ss i)
unfolding nth
nth-Clean_all [] i h = tt
nth-Clean_all (s ∷ ss) zero h = AllBytes-all_bytes is_clean s (ground arith)
nth-Clean_all (s ∷ ss) (suc i) h = nth-Clean_all ss i (ground arith)

basic16-Clean : all_clean basic16 ≡ true
basic16-Clean = refl

nth-Clean : (i : ℕ) → Clean (nth basic16 i)
nth-Clean i = nth-Clean_all basic16 i basic16-Clean

color256-Clean : (n : ℤ) → Clean (color256 n)
unfolding color256
color256-Clean (negsuc n) = tt
color256-Clean (pos n) = elim (Bool-cases (ltb 255 n)) [
  | inl e ↦ rw e tt
  | inr e ↦ elim (Bool-cases (ltb n 16)) [
    | inl low ↦ rw (e, low) (nth-Clean n)
    | inr high ↦ elim (Bool-cases (ltb n 232)) [
      | inl cube ↦ rw (e, high, cube) (rgb-Clean _ _ _)
      | inr grey ↦ rw (e, high, grey) (rgb-Clean _ _ _)
    ]
  ]
]

-- A colour, if there is one.
abbrev CleanIf : Option Bytes → Type 0
CleanIf none = Unit
CleanIf (some c) = Clean c

indexed-Clean : (cs : List Bytes) → CleanIf (indexed cs).0
unfolding indexed
indexed-Clean [] = tt
indexed-Clean (i ∷ cs) = color256-Clean (atoi i)

truecolor-Clean : (cs : List Bytes) → CleanIf (truecolor cs).0
unfolding truecolor
truecolor-Clean [] = tt
truecolor-Clean (r ∷ []) = tt
truecolor-Clean (r ∷ g ∷ []) = tt
truecolor-Clean (r ∷ g ∷ b ∷ cs) = rgb-Clean (atoi r) (atoi g) (atoi b)

extended-Clean : (cs : List Bytes) → CleanIf (extended cs).0
unfolding extended
extended-Clean [] = tt
extended-Clean (m ∷ cs) = elim (Bool-cases (equals (atoi m) 5)) [
  | inl e ↦ rw e (indexed-Clean cs)
  | inr e ↦ elim (Bool-cases (equals (atoi m) 2)) [
    | inl two ↦ rw (e, two) (truecolor-Clean cs)
    | inr other ↦ rw (e, other) tt
  ]
]

set_fg-IsClean : (c : Option Bytes) (s : Sgr) → CleanIf c → IsClean s → IsClean (set_fg c s)
set_fg-IsClean none s k h = h
set_fg-IsClean (some c) s k h = record { fg = k; bg = h.bg }

set_bg-IsClean : (c : Option Bytes) (s : Sgr) → CleanIf c → IsClean s → IsClean (set_bg c s)
set_bg-IsClean none s k h = h
set_bg-IsClean (some c) s k h = record { fg = h.fg; bg = k }

-- A branch, with its flag.
choose-IsClean :
    (b : Bool) (x y : Sgr × ℕ) → IsClean x.0 → IsClean y.0 → IsClean (if b then x else y).0
choose-IsClean true x y h k = h
choose-IsClean false x y h k = k

apply_code-IsClean : (n : ℤ) (cs : List Bytes) (s : Sgr) → IsClean s → IsClean (apply_code n cs s).0
unfolding apply_code
apply_code-IsClean (negsuc n) cs s h = h
apply_code-IsClean (pos n) cs s h = ground (
  arith,
  nth-Clean (n - 30),
  nth-Clean (n - 40),
  nth-Clean (n - 90 + 8),
  nth-Clean (n - 100 + 8),
  set_fg-IsClean (extended cs).0 s (extended-Clean cs) h,
  set_bg-IsClean (extended cs).0 s (extended-Clean cs) h,
)

apply_codes-IsClean :
    (cs : List Bytes) (skip : ℕ) (s : Sgr) → IsClean s → IsClean (apply_codes cs skip s)
unfolding apply_codes
apply_codes-IsClean [] skip s h = h
apply_codes-IsClean (c ∷ cs) (suc skip) s h = apply_codes-IsClean cs skip s h
apply_codes-IsClean (c ∷ cs) zero s h =
    apply_codes-IsClean cs _ _
      (choose-IsClean (atoi_fails c) (s, 0) _ h (apply_code-IsClean (atoi c) cs s h))

pub apply_sgr-IsClean : (p : Bytes) (s : Sgr) → IsClean s → IsClean (apply_sgr p s)
unfolding apply_sgr
apply_sgr-IsClean [] s h = reset-IsClean
apply_sgr-IsClean (c ∷ p) s h = apply_codes-IsClean (split_byte b';' (c ∷ p)) 0 s h

abbrev AllClean : List Bytes → Type 0
AllClean [] = Unit
AllClean (s ∷ ss) = Clean s × AllClean ss

join-Clean : (ps : List Bytes) → AllClean ps → Clean (join ps)
unfolding join
join-Clean [] h = tt
join-Clean (p ∷ []) h = h.0
join-Clean (p ∷ q ∷ ps) h = AllBytes-append is_clean p _ h.0 (refl, join-Clean (q ∷ ps) h.1)

AllClean-append : (ps qs : List Bytes) → AllClean ps → AllClean qs → AllClean (ps ++ qs)
AllClean-append [] qs h k = k
AllClean-append (p ∷ ps) qs h k = (h.0, AllClean-append ps qs h.1 k)

part-AllClean : (b : Bool) (p : Bytes) → all_bytes is_clean p ≡ true → AllClean (part b p)
part-AllClean true p h = (AllBytes-all_bytes is_clean p h, tt)
part-AllClean false p h = tt

coloured-AllClean :
    (name c : Bytes) → all_bytes is_clean name ≡ true → Clean c → AllClean (coloured name c)
coloured-AllClean name [] h k = tt
coloured-AllClean name (c ∷ s) h k =
    (AllBytes-append is_clean name (c ∷ s) (AllBytes-all_bytes is_clean name h) k, tt)

pub style-Clean : (s : Sgr) → IsClean s → Clean (style s)
unfolding style
style-Clean s h =
    let fg = coloured-AllClean (codes "color:") s.fg refl h.fg in
    let bg = coloured-AllClean (codes "background-color:") s.bg refl h.bg in
    join-Clean _ (
      AllClean-append (part s.bold _) _ (part-AllClean s.bold _ refl) (
        AllClean-append (part s.italic _) _ (part-AllClean s.italic _ refl) (
          AllClean-append (part s.underline _) _ (part-AllClean s.underline _ refl)
            (AllClean-append (coloured (codes "color:") s.fg) _ fg bg))))
