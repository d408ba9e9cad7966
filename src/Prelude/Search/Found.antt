-- ===== src/Prelude/Search/Found.antt =====
-- What a search finds, and where.
use wmux.Prelude.{
  ℕ, zero, suc, ◌+◌, ◌≤◌, ◌<◌, ◌≡◌, refl, ap, ◌==◌, true, Bool-cases, ◌⊎◌, inl, inr, [], ◌∷◌, ◌++◌,
  none, some, Bytes, arith, take, drop, length,
}
use wmux.Prelude.Search.{has_prefix, index, index_byte, NoByte}

pub has_prefix-splits : (s p : Bytes) → has_prefix s p ≡ true → s ≡ p ++ drop (length p) s
unfolding has_prefix
has_prefix-splits s [] h = refl
has_prefix-splits [] (p ∷ ps) h = cc
has_prefix-splits (c ∷ s) (p ∷ ps) h = ground (arith, has_prefix-splits s ps)

pub length-has_prefix : (s p : Bytes) → has_prefix s p ≡ true → length p ≤ length s
unfolding has_prefix
length-has_prefix s [] h = omega arith
length-has_prefix [] (p ∷ ps) h = ground arith
length-has_prefix (c ∷ s) (p ∷ ps) h = ground (arith, length-has_prefix s ps)

pub index_byte-cases :
    (s : Bytes) (b : ℕ)
    → ((index_byte s b ≡ none) × NoByte b s)
      ⊎ ((i : ℕ) × (index_byte s b ≡ some i)
          × (s ≡ take i s ++ drop i s)
          × (drop i s ≡ b ∷ drop (suc i) s)
          × NoByte b (take i s))
unfolding index_byte
index_byte-cases [] b = inl (refl, tt)
index_byte-cases (c ∷ s) b = elim (Bool-cases (c == b)) [
  | inl hit ↦ inr (0, ground arith, refl, ground arith, tt)
  | inr miss ↦ elim (index_byte-cases s b) [
    | inl (e, clear) ↦ inl (ground (arith, e), (ground arith, clear))
    | inr (i, e, splits, at, clear) ↦
        inr (suc i, ground (arith, e), ap (◌∷◌ c) splits, at, (ground arith, clear))
  ]
]

-- The place that IndexByte gives lies inside.
pub index_byte-bound : (s : Bytes) (b i : ℕ) → index_byte s b ≡ some i → i < length s
unfolding index_byte
index_byte-bound [] b i e = ground arith
index_byte-bound (c ∷ s) b zero e = omega arith
index_byte-bound (c ∷ s) b (suc i) e = ground (arith, index_byte-bound s b i)

pub index-bound : (s p : Bytes) (i : ℕ) → index s p ≡ some i → i + length p ≤ length s
unfolding index
index-bound [] p zero e = ground (arith, length-has_prefix [] p)
index-bound [] p (suc i) e = ground arith
index-bound (c ∷ s) p zero e = ground (arith, length-has_prefix (c ∷ s) p)
index-bound (c ∷ s) p (suc i) e = ground (arith, index-bound s p i)

pub has_prefix-index : (s p : Bytes) (i : ℕ) → index s p ≡ some i → has_prefix (drop i s) p ≡ true
unfolding index
has_prefix-index [] p zero e = ground arith
has_prefix-index [] p (suc i) e = ground arith
has_prefix-index (c ∷ s) p zero e = ground arith
has_prefix-index (c ∷ s) p (suc i) e = ground (arith, has_prefix-index s p i)
