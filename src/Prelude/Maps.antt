-- ===== src/Prelude/Maps.antt =====
-- A Go map with string keys, as an association list; `length` is `len`. The order of iteration,
-- which Go leaves open, is the order of the list.
use Prim.Native.Nat.{suc, ◌≤◌}
use wmux.Prelude.Lists.{length}
use mathlib.Core.Path.{◌≡◌, refl, sym, ◌∙◌, subst₂}
use mathlib.Core.Logic.{◌⊎◌, inl, inr}
use mathlib.Core.Bool.{true, false}
use mathlib.Core.List.{List, [], ◌∷◌}
use mathlib.Core.Option.{Option, none, some}
use native.Mathlib.Omega.{arith}
use wmux.Prelude.Tests.{Bytes, bytes_eq, bytes_eq_iff, bytes_eq_refl, Bool-cases, if◌then◌else◌}

module _ {ℓ} where
  abbrev pub Map : Type ℓ → Type ℓ
  Map V = List (Bytes × V)

module _ {ℓ} {V : Type ℓ} where
  unfoldable pub lookup : Bytes → Map V → Option V
  lookup k [] = none
  lookup k ((j, v) ∷ m) = if bytes_eq j k then some v else lookup k m

  unfoldable pub insert : Bytes → V → Map V → Map V
  insert k v [] = (k, v) ∷ []
  insert k v ((j, w) ∷ m) = if bytes_eq j k then (k, v) ∷ m else (j, w) ∷ insert k v m

  unfoldable pub delete : Bytes → Map V → Map V
  delete k [] = []
  delete k ((j, w) ∷ m) = if bytes_eq j k then delete k m else (j, w) ∷ delete k m

  pub lookup-insert :
      (k j : Bytes) (v : V) (m : Map V)
      → lookup j (insert k v m) ≡ (if bytes_eq k j then some v else lookup j m)
  unfolding lookup insert
  lookup-insert k j v [] = refl
  lookup-insert k j v ((i, w) ∷ m) =
      ground (arith, bytes_eq_iff k j, bytes_eq_iff i k, bytes_eq_iff i j, lookup-insert k j v m)

  pub lookup-delete :
      (k j : Bytes) (m : Map V)
      → lookup j (delete k m) ≡ (if bytes_eq k j then none else lookup j m)
  unfolding lookup delete
  lookup-delete k j [] = ground arith
  lookup-delete k j ((i, w) ∷ m) =
      ground (arith, bytes_eq_iff k j, bytes_eq_iff i k, bytes_eq_iff i j, lookup-delete k j m)

module _ {ℓ} {V : Type ℓ} where
  -- Every entry that can be looked up has the property.
  abbrev pub Each : (Bytes → V → Type 0) → Map V → Type ℓ
  Each P m = (k : Bytes) (v : V) → lookup k m ≡ some v → P k v

  pub Each-nil : (P : Bytes → V → Type 0) → Each P []
  unfolding lookup
  Each-nil P k v e = ground arith

  pub Each-insert :
      (P : Bytes → V → Type 0) (k : Bytes) (v : V) (m : Map V)
      → Each P m
      → P k v
      → Each P (insert k v m)
  Each-insert P k v m h p j u e = pick (Bool-cases (bytes_eq k j)) (sym (lookup-insert k j v m) ∙ e)
    where
      pick :
          (bytes_eq k j ≡ true) ⊎ (bytes_eq k j ≡ false)
          → (if bytes_eq k j then some v else lookup j m) ≡ some u
          → P j u
      pick (inl same) x =
          let y : some v ≡ some u = rw same at x in subst₂ P ((bytes_eq_iff k j).0 same) (cc) p
      pick (inr other) x = h j u (rw other at x)

  pub Each-delete :
      (P : Bytes → V → Type 0) (k : Bytes) (m : Map V) → Each P m → Each P (delete k m)
  Each-delete P k m h j u e = pick (Bool-cases (bytes_eq k j)) (sym (lookup-delete k j m) ∙ e)
    where
      pick :
          (bytes_eq k j ≡ true) ⊎ (bytes_eq k j ≡ false)
          → (if bytes_eq k j then none else lookup j m) ≡ some u
          → P j u
      pick (inl same) x = cc (rw same at x)
      pick (inr other) x = h j u (rw other at x)

  pub lookup-insert_self : (k : Bytes) (v : V) (m : Map V) → lookup k (insert k v m) ≡ some v
  lookup-insert_self k v m = simp (lookup-insert, bytes_eq_refl)

  pub lookup-insert_ne :
      (k j : Bytes) (v : V) (m : Map V)
      → bytes_eq k j ≡ false
      → lookup j (insert k v m) ≡ lookup j m
  lookup-insert_ne k j v m h = simp (lookup-insert, h)

  pub lookup-delete_self : (k : Bytes) (m : Map V) → lookup k (delete k m) ≡ none
  lookup-delete_self k m = simp (lookup-delete, bytes_eq_refl)

  pub lookup-delete_ne :
      (k j : Bytes) (m : Map V) → bytes_eq k j ≡ false → lookup j (delete k m) ≡ lookup j m
  lookup-delete_ne k j m h = simp (lookup-delete, h)

module _ {ℓ} {V : Type ℓ} where
  pub length-insert_new :
      (k : Bytes) (v : V) (m : Map V) → lookup k m ≡ none → length (insert k v m) ≡ suc (length m)
  unfolding lookup insert
  length-insert_new k v [] e = refl
  length-insert_new k v ((j, w) ∷ m) e = ground (arith, length-insert_new k v m)

  pub length-delete_le : (k : Bytes) (m : Map V) → length (delete k m) ≤ length m
  unfolding delete
  length-delete_le k [] = omega arith
  length-delete_le k ((j, w) ∷ m) = ground (arith, length-delete_le k m)

  -- What is found after a deletion was there before, under another key.
  pub lookup-delete-some :
      (k j : Bytes) (m : Map V) (v : V)
      → lookup j (delete k m) ≡ some v
      → (bytes_eq k j ≡ false) × (lookup j m ≡ some v)
  lookup-delete-some k j m v e = ground (arith, lookup-delete k j m)

  pub Each-imp :
      (P Q : Bytes → V → Type 0) (m : Map V)
      → Each P m
      → ((k : Bytes) (v : V) → P k v → Q k v)
      → Each Q m
  Each-imp P Q m h f k v e = f k v (h k v e)

pub ruleset map_laws = (lookup-insert, lookup-delete)
