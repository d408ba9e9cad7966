-- ===== src/Prelude/Search.antt =====
-- Searching byte strings: the documented behaviour of the functions of `bytes` and `strings`.
pub mod Found
use mathlib.Core.Option
use wmux.Prelude.{
  ℕ, suc, ◌+◌, ◌≡◌, refl, ap, ◌==◌, if◌then◌else◌, Bool, true, false, not, ◌&&◌, Bool-cases, ◌⊎◌,
  inl, inr, [], ◌∷◌, ◌++◌, Option, none, some, Bytes, arith, take, drop,
}

-- HasPrefix s p, with the arguments as in Go.
unfoldable pub has_prefix : Bytes → Bytes → Bool
has_prefix s [] = true
has_prefix [] (p ∷ ps) = false
has_prefix (c ∷ s) (p ∷ ps) = c == p && has_prefix s ps

-- Index; `none` is -1.
unfoldable pub index : Bytes → Bytes → Option ℕ
unfolding has_prefix
index [] p = if has_prefix [] p then some 0 else none
index (c ∷ s) p = if has_prefix (c ∷ s) p then some 0 else Option.map suc (index s p)

-- IndexByte.
unfoldable pub index_byte : Bytes → ℕ → Option ℕ
index_byte [] b = none
index_byte (c ∷ s) b = if c == b then some 0 else Option.map suc (index_byte s b)

-- LastIndex of one byte.
unfoldable pub last_index_byte : Bytes → ℕ → Option ℕ
last_index_byte [] b = none
last_index_byte (c ∷ s) b = elim (last_index_byte s b) [
  | some i ↦ some (suc i)
  | none ↦ if c == b then some 0 else none
]

-- Contains.
unfoldable pub contains : Bytes → Bytes → Bool
unfolding index
contains s p = elim (index s p) [ some _ ↦ true | none ↦ false ]

-- Count of one byte.
unfoldable pub count_byte : ℕ → Bytes → ℕ
count_byte b [] = 0
count_byte b (c ∷ s) = if c == b then suc (count_byte b s) else count_byte b s

pub count_byte-append :
    (b : ℕ) (s t : Bytes) → count_byte b (s ++ t) ≡ count_byte b s + count_byte b t
unfolding count_byte
count_byte-append b [] t = omega arith
count_byte-append b (c ∷ s) t = ground (arith, count_byte-append b s t)

-- Every byte passes the test.
abbrev pub AllBytes : (ℕ → Bool) → Bytes → Type 0
AllBytes f [] = Unit
AllBytes f (c ∷ s) = (f c ≡ true) × AllBytes f s

pub AllBytes-append :
    (f : ℕ → Bool) (s t : Bytes) → AllBytes f s → AllBytes f t → AllBytes f (s ++ t)
AllBytes-append f [] t h k = k
AllBytes-append f (c ∷ s) t h k = (h.0, AllBytes-append f s t h.1 k)

-- No byte passes it.
abbrev pub NoByte : ℕ → Bytes → Type 0
NoByte b = AllBytes (λ c. not (c == b))

pub last_index_byte-cases :
    (s : Bytes) (b : ℕ)
    → ((last_index_byte s b ≡ none) × NoByte b s)
      ⊎ ((i : ℕ) × (last_index_byte s b ≡ some i)
          × (s ≡ take i s ++ b ∷ drop (suc i) s)
          × NoByte b (drop (suc i) s))
unfolding last_index_byte
last_index_byte-cases [] b = inl (refl, tt)
last_index_byte-cases (c ∷ s) b = elim (last_index_byte-cases s b) [
  | inl (e, clear) ↦ elim (Bool-cases (c == b)) [
    | inl hit ↦ inr (0, ground (arith, e), ground arith, clear)
    | inr miss ↦ inl (ground (arith, e), (ground arith, clear))
  ]
  | inr (i, e, splits, clear) ↦ inr (suc i, ground (arith, e), ap (◌∷◌ c) splits, clear)
]

abbrev pub all_bytes : (ℕ → Bool) → Bytes → Bool
all_bytes f [] = true
all_bytes f (c ∷ s) = f c && all_bytes f s

-- For a text that is written out.
pub AllBytes-all_bytes : (f : ℕ → Bool) (s : Bytes) → all_bytes f s ≡ true → AllBytes f s
AllBytes-all_bytes f [] h = tt
AllBytes-all_bytes f (c ∷ s) h = (ground arith, AllBytes-all_bytes f s (ground arith))
