-- ===== src/Daemon/Restart/Settled.antt =====
-- What `ReconcileOrphans` makes of one directory, and a second call after it.
use wmux.Prelude.{
  subst, ℕ, ◌+◌, ◌≡◌, refl, sym, ◌⊎◌, inl, inr, true, false, [], ◌∷◌, Option, none, some, Bytes,
  bytes_eq, Map,
}
use wmux.Prelude.Int.{negsuc}
use wmux.Platform.SessionDirs.{
  Metadata, Dir, WriteResult, writes, cuts, Error, meta_file_name, read_file, read_metadata,
}

-- Metadata with an end at the time and the exit code -1.
abbrev pub exited : ℕ → Metadata → Metadata
exited t m = record m { ended_at = some t; exit_code = some (negsuc 0) }

-- A directory with metadata of a session that has not ended.
abbrev pub Orphan : (Bytes → Option Metadata) → Dir → Metadata → Type 0
Orphan u x m = (x.is_dir ≡ true) × (read_metadata u x ≡ inr m) × (m.ended_at ≡ none)

-- No directory, no readable metadata, or a session that has ended.
abbrev pub Spared : (Bytes → Option Metadata) → Dir → Type 0
Spared u x =
    (x.is_dir ≡ false)
    ⊎ ((e : Error) × (read_metadata u x ≡ inl e))
    ⊎ ((m : Metadata) × (t : ℕ) × (read_metadata u x ≡ inr m) × (m.ended_at ≡ some t))

-- The other files of a directory are kept.
abbrev pub OthersKept : Dir → Dir → Type 0
OthersKept x y =
    (n : Bytes) → bytes_eq meta_file_name n ≡ false → read_file n y.files ≡ read_file n x.files

-- What a write of the metadata that fails leaves: all as it was, or other contents of this one file.
abbrev pub IsCut : Option Bytes → Dir → Dir → Type 0
IsCut none x y = y ≡ x
IsCut (some part) x y =
    (y.is_dir ≡ true) × (read_file meta_file_name y.files ≡ some part) × OthersKept x y

-- An orphan whose write fails.
abbrev pub Fails : (Bytes → Option Metadata) → WriteResult → Dir → Dir → Type 0
Fails u wrote x y =
    (m : Metadata) × Orphan u x m × (part : Option Bytes) × (wrote ≡ cuts part) × IsCut part x y

-- What becomes of one entry; `hit` is what it adds to the count.
abbrev pub Settled : (Bytes → Option Metadata) → WriteResult → ℕ → Dir → Dir → ℕ → Type 0
Settled u wrote now x y hit =
    ((m : Metadata) × Orphan u x m
      × (wrote ≡ writes)
      × (hit ≡ 1)
      × (y.is_dir ≡ true)
      × (read_metadata u y ≡ inr (exited now m))
      × OthersKept x y)
    ⊎ (Fails u wrote x y × (hit ≡ 0))
    ⊎ (Spared u x × (y ≡ x) × (hit ≡ 0))

abbrev pub Reconciled :
    (Bytes → Option Metadata) → (Bytes → WriteResult) → (Bytes → ℕ) → Map Dir → Map Dir → ℕ → Type 0
Reconciled u wrote now [] [] n = n ≡ 0
Reconciled u wrote now [] (e ∷ s) n = ⊥
Reconciled u wrote now (e ∷ t) [] n = ⊥
Reconciled u wrote now ((k, x) ∷ t) ((j, y) ∷ s) n =
    (j ≡ k)
    × (hit : ℕ) × (rest : ℕ) × (n ≡ hit + rest)
    × Settled u (wrote k) (now k) x y hit
    × Reconciled u wrote now t s rest

-- A second call counts, and changes, only entries whose write has failed in the first.
abbrev pub Again :
    (Bytes → Option Metadata) → (Bytes → WriteResult) → Map Dir → Map Dir → Map Dir → ℕ → Type 0
Again u wrote [] [] [] n = n ≡ 0
Again u wrote ((k, x) ∷ t) ((j, y) ∷ s) ((i, z) ∷ r) n =
    (i ≡ j)
    × (hit : ℕ) × (rest : ℕ) × (n ≡ hit + rest)
    × (Fails u (wrote k) x y ⊎ ((z ≡ y) × (hit ≡ 0)))
    × Again u wrote t s r rest
Again u wrote _ _ _ n = ⊥

module _ (u : Bytes → Option Metadata) where
  Spared-Settled :
      (wrote : WriteResult) (now hit : ℕ) (x y : Dir)
      → Spared u x
      → Settled u wrote now x y hit
      → (y ≡ x) × (hit ≡ 0)
  Spared-Settled wrote now hit x y v (inr (inr (spared, same, h))) = (same, h)
  Spared-Settled wrote now hit x y v (inl (m, (dir, read, runs), f, h, dir', read', others)) =
      elim v [ inl a ↦ cc | inr (inl (e, a)) ↦ cc | inr (inr (k, t, a, b)) ↦ cc ]
  Spared-Settled wrote now hit x y v (inr (inl ((m, (dir, read, runs), part, f, g), h))) = elim v [
    | inl a ↦ cc
    | inr (inl (e, a)) ↦ cc
    | inr (inr (k, t, a, b)) ↦ cc
  ]

  -- What a second call makes of an entry.
  pub Settled-Again :
      (first second : WriteResult) (now later hit hit' : ℕ) (x y z : Dir)
      → Settled u first now x y hit
      → Settled u second later y z hit'
      → Fails u first x y ⊎ ((z ≡ y) × (hit' ≡ 0))
  Settled-Again first second now later hit hit' x y z (inl (m, o, f, h, dir, read, others)) b =
      inr (Spared-Settled second later hit' y z (inr (inr (exited now m, now, read, refl))) b)
  Settled-Again first second now later hit hit' x y z (inr (inl (fails, h))) b = inl fails
  Settled-Again first second now later hit hit' x y z (inr (inr (spared, same, h))) b =
      inr (Spared-Settled second later hit' y z (subst (Spared u) (sym same) spared) b)
