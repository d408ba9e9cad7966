-- ===== src/Prelude/Every.antt =====
-- Properties of all elements of a list, and of all pairs, which no permutation changes.
use mathlib.Core.Logic.Or
use mathlib.Core.List.{
  Mem, mem-cons, mem-cons_self, mem-cons_of_mem, not-mem-nil, Perm, Pairwise, Pairwise-cons,
}
use mathlib.Core.List.Perm
use wmux.Prelude.{sym, subst, List, [], ◌∷◌, ◌++◌}

abbrev pub All {ℓ κ} : {A : Type ℓ} → (A → Type κ) → List A → Type κ
All P [] = Unit
All P (x ∷ xs) = P x × All P xs

-- Every element is so related to every one behind it.
abbrev pub AllPairs {ℓ κ} : {A : Type ℓ} → (A → A → Type κ) → List A → Type κ
AllPairs R [] = Unit
AllPairs R (x ∷ xs) = All (R x) xs × AllPairs R xs

pub All-imp {ℓ κ} :
    {A : Type ℓ} {P Q : A → Type κ} (xs : List A) → ((a : A) → P a → Q a) → All P xs → All Q xs
All-imp [] f h = tt
All-imp (x ∷ xs) f h = (f x h.0, All-imp xs f h.1)

pub All-prefix {ℓ κ} : {A : Type ℓ} (P : A → Type κ) (xs ys : List A) → All P (xs ++ ys) → All P xs
All-prefix P [] ys h = tt
All-prefix P (x ∷ xs) ys h = (h.0, All-prefix P xs ys h.1)

pub All-suffix {ℓ κ} : {A : Type ℓ} (P : A → Type κ) (xs ys : List A) → All P (xs ++ ys) → All P ys
All-suffix P [] ys h = h
All-suffix P (x ∷ xs) ys h = All-suffix P xs ys h.1

All-mem {ℓ κ} :
    {A : Type ℓ} (P : A → Type κ)
    → ((a : A) → IsProp (P a))
    → (xs : List A) → All P xs
    → (a : A) → Mem a xs
    → P a
All-mem P prop [] h a m = absurd (not-mem-nil m)
All-mem P prop (x ∷ xs) h a m =
    Or.elim (prop a) (mem-cons.0 m) (λ e. subst P (sym e) h.0) (All-mem P prop xs h.1 a)

pub mem-All {ℓ κ} :
    {A : Type ℓ} (P : A → Type κ) (xs : List A) → ((a : A) → Mem a xs → P a) → All P xs
mem-All P [] h = tt
mem-All P (x ∷ xs) h = (h x mem-cons_self, mem-All P xs (λ a m. h a (mem-cons_of_mem x m)))

pub All-Perm {ℓ κ} :
    {A : Type ℓ} (P : A → Type κ)
    → ((a : A) → IsProp (P a))
    → (xs ys : List A) → Perm xs ys
    → All P xs
    → All P ys
All-Perm P prop xs ys p h = mem-All P ys (λ a m. All-mem P prop xs h a ((Perm.mem_iff p).1 m))

module _ {ℓ κ} {A : Type ℓ} (R : A → A → Type κ) (prop : (a b : A) → IsProp (R a b)) where
  AllPairs-Pairwise : (xs : List A) → AllPairs R xs → Pairwise R xs
  AllPairs-Pairwise [] h = Pairwise.nil
  AllPairs-Pairwise (x ∷ xs) h =
      Pairwise-cons.1 (All-mem (R x) (prop x) xs h.0, AllPairs-Pairwise xs h.1)

  Pairwise-AllPairs : (xs : List A) → Pairwise R xs → AllPairs R xs
  Pairwise-AllPairs [] h = tt
  Pairwise-AllPairs (x ∷ xs) h =
      let (rel, rest) = Pairwise-cons.0 h in (mem-All (R x) xs rel, Pairwise-AllPairs xs rest)

  pub AllPairs-Perm :
      ((a b : A) → R a b → R b a) → (xs ys : List A) → Perm xs ys → AllPairs R xs → AllPairs R ys
  AllPairs-Perm symmetric xs ys p h =
      Pairwise-AllPairs ys (Perm.pairwise prop symmetric p (AllPairs-Pairwise xs h))

pub All-both {ℓ κ μ} :
    {A : Type ℓ} (P : A → Type κ) (Q : A → Type μ) (xs : List A)
    → All P xs
    → All Q xs
    → All (λ a. P a × Q a) xs
All-both P Q [] h k = tt
All-both P Q (x ∷ xs) h k = ((h.0, k.0), All-both P Q xs h.1 k.1)
