-- ===== src/Platform/SessionDirs/Evict.antt =====
-- What `EvictLRU` removes.
use wmux.Prelude.{
  ◌≤◌, ℕ, ◌-◌, ◌≡◌, ◌⊎◌, Bool, true, false, List, [], ◌∷◌, ◌++◌, map, Option, none, some, Bytes,
  Map,
}
use wmux.Prelude.Int.{ℤ}
use wmux.Prelude.Every.{All}
use wmux.Prelude.Keys.{delete_all}
use wmux.Platform.SessionDirs.{
  File, Removal, stays, leave_behind, Metadata, Dir, Error, remove_failed, SessionDirInfo,
  session_dirs, sum_sizes, fits,
}

-- Before each removal the total was over the limit.
abbrev pub Needed : ℤ → ℕ → List SessionDirInfo → Type 0
Needed max total [] = Unit
Needed max total (d ∷ ds) = (fits total max ≡ false) × Needed max (total - d.size) ds

-- The one ended no later than the other.
abbrev pub NoLater : SessionDirInfo → SessionDirInfo → Type 0
NoLater d e = (s t : ℕ) → d.ended_at ≡ some s → e.ended_at ≡ some t → s ≤ t

-- `candidates` is split into what is removed and what is kept. The loop ends without an error, with
-- a total within the limit or nothing kept, or with the error of the first removal that
-- fails, which leaves what it could not remove of that one directory.
pub record Evicted (u : Bytes → Option Metadata) (removes : Bytes → Removal) (max : ℤ) (total : ℕ)
    (candidates : List SessionDirInfo) (before : Map Dir) (result : Map Dir × Option Error)
    : Type 0 where
  pub gone : List SessionDirInfo
  pub kept : List SessionDirInfo
  pub split : candidates ≡ gone ++ kept
  pub oldest : All (λ d. All (NoLater d) kept) gone
  pub needed : Needed max total gone
  pub ending :
      ((result.1 ≡ none)
        × (result.0 ≡ delete_all (map (λ d. d.path) gone) before)
        × ((fits (sum_sizes (session_dirs u result.0)) max ≡ true) ⊎ (kept ≡ [])))
      ⊎ ((d : SessionDirInfo) × (rest : List SessionDirInfo) × (kept ≡ d ∷ rest)
          × (stay : File → Bool) × (removes d.path ≡ stays stay)
          × (result.0 ≡ leave_behind stay d.path (delete_all (map (λ e. e.path) gone) before))
          × (result.1 ≡ some remove_failed))
