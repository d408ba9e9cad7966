-- ===== src/Daemon/Restart/Reconciled.antt =====
-- What `ReconcileOrphans` makes of the metadata below the data directory.
use wmux.Prelude.{
  ℕ, ◌≡◌, refl, ap, ◌∙◌, inl, inr, Bool-cases, [], ◌∷◌, Option, none, some, Bytes, bytes_eq, Map,
  lookup, arith, ◌>>=◌,
}
use wmux.Prelude.Keys.{Distinct}
use wmux.Platform.SessionDirs.{Metadata, Dir, WriteResult, list_session_dirs}
use wmux.Daemon.Restart.{reconcile_orphans}
use wmux.Daemon.Restart.Settled.{exited, Reconciled, Again, Settled-Again}
use wmux.Daemon.Restart.Rounds.{reconcile_dirs-Reconciled}

module _ (u : Bytes → Option Metadata) (marshal : Metadata → Option Bytes) where
  Reconciled-absent :
      (wrote : Bytes → WriteResult) (now : Bytes → ℕ) (j : Bytes) (t s : Map Dir) (n : ℕ)
      → Reconciled u wrote now t s n
      → lookup j t ≡ none
      → lookup j s ≡ none
  unfolding lookup
  Reconciled-absent wrote now j [] [] n r e = refl
  Reconciled-absent wrote now j [] (a ∷ s) n r e = absurd r
  Reconciled-absent wrote now j (a ∷ t) [] n r e = absurd r
  Reconciled-absent wrote now j ((k, x) ∷ t) ((i, y) ∷ s) n (same, hit, rest, sum, _, r) e =
      elim (Bool-cases (bytes_eq k j)) [
        | inl b ↦ cc (rw (lookup, b) at e)
        | inr b ↦
            rw (lookup, same, b) (Reconciled-absent wrote now j t s rest r (rw (lookup, b) at e))
      ]

  Reconciled-Distinct :
      (wrote : Bytes → WriteResult) (now : Bytes → ℕ) (t s : Map Dir) (n : ℕ)
      → Reconciled u wrote now t s n
      → Distinct t
      → Distinct s
  Reconciled-Distinct wrote now [] [] n r d = tt
  Reconciled-Distinct wrote now [] (a ∷ s) n r d = absurd r
  Reconciled-Distinct wrote now (a ∷ t) [] n r d = absurd r
  Reconciled-Distinct wrote now ((k, x) ∷ t) ((i, y) ∷ s) n (same, hit, rest, sum, _, r) d = (
    rw same (Reconciled-absent wrote now k t s rest r d.0),
    Reconciled-Distinct wrote now t s rest r d.1,
  )

  Reconciled-Again :
      (wrote again : Bytes → WriteResult) (now later : Bytes → ℕ) (t s r : Map Dir) (n m : ℕ)
      → Reconciled u wrote now t s n
      → Reconciled u again later s r m
      → Again u wrote t s r m
  Reconciled-Again wrote again now later [] [] [] n m a b = b
  Reconciled-Again wrote again now later [] [] (e ∷ r) n m a b = absurd b
  Reconciled-Again wrote again now later [] (e ∷ s) r n m a b = absurd a
  Reconciled-Again wrote again now later (e ∷ t) [] r n m a b = absurd a
  Reconciled-Again wrote again now later (e ∷ t) (d ∷ s) [] n m a b = absurd b
  Reconciled-Again wrote again now later ((k, x) ∷ t) ((j, y) ∷ s) ((i, z) ∷ r) n m
        (same, hit, rest, sum, settled, a) (same', hit', rest', sum', settled', b) =
      (
        same',
        hit',
        rest',
        sum',
        Settled-Again u (wrote k) (again j) (now k) (later j) hit hit' x y z settled settled',
        Reconciled-Again wrote again now later t s r rest rest' a b,
      )

  -- Where the metadata that is read can be printed and read back: of a data directory that can be
  -- listed, `ReconcileOrphans` gives every directory of a session without an end that end and the exit
  -- code -1, and keeps the rest of its metadata and its other files, if the write of its metadata goes
  -- well; if it fails, then no other file of the directory changes. It leaves every other entry as it
  -- is, and counts those that it has closed. A second call, whatever its writes do, counts and changes
  -- only entries whose write has failed in the first.
  pub reconcile_orphans-Reconciled :
      (wrote again : Bytes → WriteResult) (now later : Bytes → ℕ) (tree : Map Dir)
      → ((text : Bytes) (m : Metadata)
          → u text ≡ some m
          → (s : ℕ) → (marshal (exited s m) >>= u) ≡ some (exited s m))
      → Distinct tree
      → (s : Map Dir) × (n : ℕ) × (r : Map Dir) × (m : ℕ) × (reconcile_orphans u marshal wrote now
            (some tree)
          ≡ inr (s, n))
        × Reconciled u wrote now tree s n
        × (reconcile_orphans u marshal again later (some s) ≡ inr (r, m))
        × Again u wrote tree s r m
  unfolding reconcile_orphans list_session_dirs
  reconcile_orphans-Reconciled wrote again now later tree back distinct =
      let (s, h, m, sum, v, e) =
        reconcile_dirs-Reconciled u marshal wrote now tree 0 back distinct in
      let (r, h', m', sum', v', e') =
        reconcile_dirs-Reconciled u marshal again later s 0 back
          (Reconciled-Distinct wrote now tree s h v distinct) in
      let count : m ≡ h = omega (arith, sum) in
      let count' : m' ≡ h' = omega (arith, sum') in
      (
        s,
        h,
        r,
        h',
        ap inr (e ∙ ap (λ c. (s, c)) count),
        v,
        ap inr (e' ∙ ap (λ c. (r, c)) count'),
        Reconciled-Again wrote again now later tree s r h h' v v',
      )
