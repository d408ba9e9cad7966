-- ===== src/Prelude/Keys.antt =====
-- The keys of a map: each is there once, and lists of them.
use wmux.Prelude.{
  ◌≡◌, refl, sym, ap, ◌∙◌, ◌||◌, if◌then◌else◌, Bool, false, Bool-cases, inl, inr, List, [], ◌∷◌,
  none, Bytes, bytes_eq, bytes_eq_iff, arith, Map, lookup, insert, delete, lookup-delete,
  lookup-insert_ne, lookup-delete_ne,
}

abbrev pub listed : Bytes → List Bytes → Bool
listed j [] = false
listed j (i ∷ is) = bytes_eq i j || listed j is

module _ {ℓ} {V : Type ℓ} where
  abbrev pub Distinct : Map V → Type ℓ
  Distinct [] = Unit
  Distinct ((k, v) ∷ m) = (lookup k m ≡ none) × Distinct m

  pub insert-Distinct : (k : Bytes) (v : V) (m : Map V) → Distinct m → Distinct (insert k v m)
  unfolding insert lookup
  insert-Distinct k v [] d = (refl, tt)
  insert-Distinct k v ((j, w) ∷ m) d = elim (Bool-cases (bytes_eq j k)) [
    | inl same ↦ rw (same) ((ap (λ i. lookup i m) (sym ((bytes_eq_iff j k).0 same)) ∙ d.0, d.1))
    | inr other ↦ rw (other) (
        (
          lookup-insert_ne k j v m (ground (arith, bytes_eq_iff j k, bytes_eq_iff k j)) ∙ d.0,
          insert-Distinct k v m d.1,
        ))
  ]

  pub delete-Distinct : (k : Bytes) (m : Map V) → Distinct m → Distinct (delete k m)
  unfolding delete
  delete-Distinct k [] d = tt
  delete-Distinct k ((j, w) ∷ m) d = elim (Bool-cases (bytes_eq j k)) [
    | inl same ↦ rw same (delete-Distinct k m d.1)
    | inr other ↦ rw other (
        (
          lookup-delete_ne k j m (ground (arith, bytes_eq_iff j k, bytes_eq_iff k j)) ∙ d.0,
          delete-Distinct k m d.1,
        ))
  ]

  -- All the keys of a list are deleted, one after the other.
  unfoldable pub delete_all : List Bytes → Map V → Map V
  delete_all [] m = m
  delete_all (k ∷ ks) m = delete_all ks (delete k m)

  pub delete_all-Distinct : (ks : List Bytes) (m : Map V) → Distinct m → Distinct (delete_all ks m)
  unfolding delete_all
  delete_all-Distinct [] m d = d
  delete_all-Distinct (k ∷ ks) m d = delete_all-Distinct ks (delete k m) (delete-Distinct k m d)

  pub lookup-delete_all :
      (ks : List Bytes) (j : Bytes) (m : Map V)
      → lookup j (delete_all ks m) ≡ (if listed j ks then none else lookup j m)
  unfolding delete_all
  lookup-delete_all [] j m = refl
  lookup-delete_all (k ∷ ks) j m =
      ground (arith, lookup-delete_all ks j (delete k m), lookup-delete k j m)
