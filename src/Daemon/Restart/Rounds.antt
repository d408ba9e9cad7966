-- ===== src/Daemon/Restart/Rounds.antt =====
-- The rounds of `ReconcileOrphans` over the list of directories.
use wmux.Prelude.{
  ℕ, suc, ◌+◌, ◌≡◌, refl, ap, ◌∙◌, inl, inr, true, false, Bool-cases, List, [], ◌∷◌, Option, none,
  some, Option-cases, Bytes, bytes_eq, bytes_eq_refl, Map, lookup, insert, arith, ◌>>=◌,
}
use wmux.Prelude.Int.{negsuc}
use wmux.Prelude.Every.{All, All-imp}
use wmux.Prelude.Keys.{Distinct}
use wmux.Platform.SessionDirs.{
  Metadata, Dir, WriteResult, Error, SessionDirInfo, read_metadata, update_metadata_exit, info,
  with_info, session_dirs,
}
use wmux.Platform.SessionDirs.Listing.{session_dirs-Listed, Stands-below}
use wmux.Daemon.Restart.{reconcile_dir, reconcile_dirs}
use wmux.Daemon.Restart.Settled.{exited, Settled, Reconciled}
use wmux.Daemon.Restart.Updates.{listed, info-listed, read_metadata-cases, update-Settled, hit_of}

module _ (u : Bytes → Option Metadata) (marshal : Metadata → Option Bytes) where
  module _ (wrote : Bytes → WriteResult) (now : Bytes → ℕ) where
    -- A round for another directory.
    reconcile_dir-skip :
        (k : Bytes) (x : Dir) (d : SessionDirInfo) (t : Map Dir) (n : ℕ)
        → bytes_eq k d.path ≡ false
        → reconcile_dir u marshal wrote now d ((k, x) ∷ t, n) ≡ (
          (k, x) ∷ (reconcile_dir u marshal wrote now d (t, n)).0,
          (reconcile_dir u marshal wrote now d (t, n)).1,
        )
    unfolding reconcile_dir lookup insert
    reconcile_dir-skip k x d t n ne = ground arith

    reconcile_dirs-skip :
        (k : Bytes) (x : Dir) (ds : List SessionDirInfo) (t : Map Dir) (n : ℕ)
        → All (λ d. bytes_eq k d.path ≡ false) ds
        → reconcile_dirs u marshal wrote now ds ((k, x) ∷ t, n) ≡ (
          (k, x) ∷ (reconcile_dirs u marshal wrote now ds (t, n)).0,
          (reconcile_dirs u marshal wrote now ds (t, n)).1,
        )
    unfolding reconcile_dirs
    reconcile_dirs-skip k x [] t n h = refl
    reconcile_dirs-skip k x (d ∷ ds) t n h =
        rw (reconcile_dir-skip k x d t n h.0) (reconcile_dirs-skip k x ds _ _ h.1)

    reconcile_dir-ended :
        (d : SessionDirInfo) (st : Map Dir × ℕ) (t : ℕ)
        → d.ended_at ≡ some t
        → reconcile_dir u marshal wrote now d st ≡ st
    unfolding reconcile_dir
    reconcile_dir-ended d (tree, n) t e = rw e refl

    reconcile_dir-open :
        (d : SessionDirInfo) (x y : Dir) (err : Option Error) (t : Map Dir) (n : ℕ)
        → d.ended_at ≡ none
        → update_metadata_exit u marshal (wrote d.path) (now d.path) (negsuc 0) x ≡ (y, err)
        → reconcile_dir u marshal wrote now d ((d.path, x) ∷ t, n)
          ≡ ((d.path, y) ∷ t, elim err [ some _ ↦ n | none ↦ suc n ])
    unfolding reconcile_dir lookup insert
    reconcile_dir-open d x y err t n e h =
        rw (reconcile_dir, e, bytes_eq_refl d.path, insert, bytes_eq_refl d.path)
          (ap (λ p. ((d.path, p.0) ∷ t, elim p.1 [ some _ ↦ n | none ↦ suc n ])) h)

    counted : (err : Option Error) (n : ℕ) → elim err [ some _ ↦ n | none ↦ suc n ] ≡ hit_of err + n
    counted none n = omega arith
    counted (some e) n = omega arith

    -- The entry at the head, as it is listed.
    session_dirs-head :
        (k : Bytes) (x : Dir) (t : Map Dir) (m : Metadata)
        → x.is_dir ≡ true
        → read_metadata u x ≡ inr m
        → session_dirs u ((k, x) ∷ t) ≡ listed k x m ∷ session_dirs u t
    unfolding session_dirs
    session_dirs-head k x t m e r =
        ap (λ o. with_info o (session_dirs u t)) (info-listed u k x m e r)

    rounds :
        (k : Bytes) (x : Dir) (t : Map Dir) (m : Metadata) (n : ℕ)
        → x.is_dir ≡ true
        → read_metadata u x ≡ inr m
        → {st : Map Dir × ℕ} → reconcile_dir u marshal wrote now (listed k x m) ((k, x) ∷ t, n) ≡ st
        → reconcile_dirs u marshal wrote now (session_dirs u ((k, x) ∷ t)) ((k, x) ∷ t, n)
          ≡ reconcile_dirs u marshal wrote now (session_dirs u t) st
    unfolding reconcile_dirs
    rounds k x t m n e r h =
        ap (λ ds. reconcile_dirs u marshal wrote now ds ((k, x) ∷ t, n))
          (session_dirs-head k x t m e r)
        ∙ ap (reconcile_dirs u marshal wrote now (session_dirs u t)) h

    -- The round for the entry at the head, if there is one, settles it.
    head-Settled :
        (k : Bytes) (x : Dir) (t : Map Dir) (n : ℕ)
        → ((text : Bytes) (m : Metadata)
            → u text ≡ some m
            → (s : ℕ) → (marshal (exited s m) >>= u) ≡ some (exited s m))
        → (y : Dir) × (hit : ℕ) × Settled u (wrote k) (now k) x y hit
          × (n' : ℕ) × (n' ≡ hit + n)
          × (reconcile_dirs u marshal wrote now (session_dirs u ((k, x) ∷ t)) ((k, x) ∷ t, n)
              ≡ reconcile_dirs u marshal wrote now (session_dirs u t) ((k, y) ∷ t, n'))
    unfolding reconcile_dirs session_dirs info
    head-Settled k x t n back = elim (Bool-cases x.is_dir) [
      | inr e ↦ (x, 0, inr (inr (inl e, refl, refl)), n, omega arith, rw e refl)
      | inl e ↦ elim (read_metadata-cases u x) [
        | inl (err, r) ↦
            (x, 0, inr (inr (inr (inl (err, r)), refl, refl)), n, omega arith, rw (e, r) refl)
        | inr (m, r) ↦ elim (Option-cases m.ended_at) [
          | inr (s, a) ↦ (
            x,
            0,
            inr (inr (inr (inr (m, s, r, a)), refl, refl)),
            n,
            omega arith,
            rounds k x t m n e r (reconcile_dir-ended (listed k x m) ((k, x) ∷ t, n) s a),
          )
          | inl a ↦
              let (y, err, h, settled) =
                update-Settled u marshal (wrote k) x m (now k) back (e, r, a) in
              (
                y,
                hit_of err,
                settled,
                elim err [ some _ ↦ n | none ↦ suc n ],
                counted err n,
                rounds k x t m n e r (reconcile_dir-open (listed k x m) x y err t n a h),
              )
        ]
      ]
    ]

    pub reconcile_dirs-Reconciled :
        (t : Map Dir) (n : ℕ)
        → ((text : Bytes) (m : Metadata)
            → u text ≡ some m
            → (s : ℕ) → (marshal (exited s m) >>= u) ≡ some (exited s m))
        → Distinct t
        → (s : Map Dir) × (h : ℕ) × (m : ℕ) × (m ≡ h + n)
          × Reconciled u wrote now t s h
          × (reconcile_dirs u marshal wrote now (session_dirs u t) (t, n) ≡ (s, m))
    unfolding reconcile_dirs session_dirs
    reconcile_dirs-Reconciled [] n back distinct = ([], 0, n, omega arith, refl, refl)
    reconcile_dirs-Reconciled ((k, x) ∷ t) n back (absent, distinct) =
        let (y, hit, settled, n', sum, head) = head-Settled k x t n back in
        let (s, h, m, e, ih, tail) = reconcile_dirs-Reconciled t n' back distinct in
        let others =
          All-imp (session_dirs u t) (λ d l. (Stands-below u k y t d absent l).0)
            (session_dirs-Listed u t distinct).0 in
        (
          (k, y) ∷ s,
          hit + h,
          m,
          omega (arith, e, sum),
          (refl, hit, h, refl, settled, ih),
          head
              ∙ reconcile_dirs-skip k y (session_dirs u t) t n' others
              ∙ ap (λ r. ((k, y) ∷ r.0, r.1)) tail,
        )
