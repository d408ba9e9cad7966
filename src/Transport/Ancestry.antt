-- ===== src/Transport/Ancestry.antt =====
-- isDescendant against the ancestors of a process.
use wmux.Prelude.{
  ℕ, zero, suc, ◌≡◌, refl, ap, ◌∙◌, subst, ◌↔◌, true, Bool-cases, inl, inr, Option, some,
  Option-cases, arith,
}
use wmux.Prelude.Int.{ℤ, pos, negsuc}
use wmux.Transport.{walk_up, int_eq, is_positive, is_descendant, max_depth}

-- `n` steps or fewer from a process to the parent lead to the ancestor, through processes that exist.
pub data Descends (parent_pid : ℤ → Option ℤ) : ℕ → ℤ → ℤ → Type 0 where
  parent :
      {n : ℕ} {child ancestor : ℤ}
      → parent_pid child ≡ some ancestor
      → is_positive ancestor ≡ true
      → Descends parent_pid (suc n) child ancestor
  further :
      {n : ℕ} {child ppid ancestor : ℤ}
      → parent_pid child ≡ some ppid
      → is_positive ppid ≡ true
      → Descends parent_pid n ppid ancestor
      → Descends parent_pid (suc n) child ancestor

int_eq_iff : (a b : ℤ) → (int_eq a b ≡ true) ↔ (a ≡ b)
int_eq_iff (pos m) (pos n) = ground arith
int_eq_iff (negsuc m) (negsuc n) = ground arith
int_eq_iff (pos m) (negsuc n) = ground arith
int_eq_iff (negsuc m) (pos n) = ground arith

module _ (parent_pid : ℤ → Option ℤ) where
  walk_up-Descends :
      (n : ℕ) (child ancestor : ℤ)
      → walk_up parent_pid n child ancestor ≡ true
      → Descends parent_pid n child ancestor
  unfolding walk_up
  walk_up-Descends zero child ancestor e = cc
  walk_up-Descends (suc n) child ancestor e = elim (Option-cases (parent_pid child)) [
    | inl gone ↦ ground arith
    | inr (ppid, found) ↦ elim (Bool-cases (is_positive ppid)) [
      | inr bad ↦ ground arith
      | inl good ↦ elim (Bool-cases (int_eq ppid ancestor)) [
        | inl same ↦
            let is = (int_eq_iff ppid ancestor).0 same in
            parent (found ∙ ap some is) (subst (λ k. is_positive k ≡ true) is good)
        | inr other ↦ further found good (walk_up-Descends n ppid ancestor (ground arith))
      ]
    ]
  ]

  Descends-walk_up :
      (n : ℕ) (child ancestor : ℤ)
      → Descends parent_pid n child ancestor
      → walk_up parent_pid n child ancestor ≡ true
  unfolding walk_up
  Descends-walk_up zero child ancestor d = elim d [ ]
  Descends-walk_up (suc n) child ancestor (parent e p) =
      let same = (int_eq_iff ancestor ancestor).1 refl in ground arith
  Descends-walk_up (suc n) child ancestor (further {ppid = ppid} e p d) =
      let rest = Descends-walk_up n ppid ancestor d in ground arith

  pub is_descendant_iff :
      (child ancestor : ℤ)
      → (is_descendant parent_pid child ancestor ≡ true)
        ↔ Descends parent_pid max_depth child ancestor
  unfolding is_descendant
  is_descendant_iff child ancestor =
      (walk_up-Descends max_depth child ancestor, Descends-walk_up max_depth child ancestor)
