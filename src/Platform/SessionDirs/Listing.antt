-- ===== src/Platform/SessionDirs/Listing.antt =====
-- What is listed of the directories below a base directory, and what a removal changes of it.
use wmux.Prelude.{
  ℕ, ◌+◌, ◌≡◌, refl, sym, ap, ◌∙◌, subst, inl, inr, Bool, true, false, Bool-cases, List, [], ◌∷◌,
  Option, none, some, Option-cases, Bytes, bytes_eq, bytes_eq_iff, bytes_eq_refl, Map, lookup,
  delete, arith, ◌>>=◌,
}
use wmux.Prelude.Every.{All, AllPairs, All-imp}
use wmux.Prelude.Keys.{Distinct}
use wmux.Platform.SessionDirs.{
  Metadata, Dir, SessionDirInfo, info, with_info, session_dirs, sum_sizes, completed,
}

abbrev pub has_ended : Option ℕ → Bool
has_ended none = false
has_ended (some t) = true

-- The directory at the path is there, is listed as `d`, and its session has ended.
abbrev pub Stands : (Bytes → Option Metadata) → Map Dir → SessionDirInfo → Type 0
Stands u tree d = ((lookup d.path tree >>= info u d.path) ≡ some d) × (has_ended d.ended_at ≡ true)

SessionDirInfo-set : IsSet SessionDirInfo
SessionDirInfo-set = hlevel

Option-set : IsSet (Option SessionDirInfo)
Option-set = hlevel

pub Stands-prop :
    (u : Bytes → Option Metadata) (tree : Map Dir) (d : SessionDirInfo) → IsProp (Stands u tree d)
Stands-prop u tree d = hlevel

abbrev pub Apart : SessionDirInfo → SessionDirInfo → Type 0
Apart a b = bytes_eq a.path b.path ≡ false

pub Apart-prop : (a b : SessionDirInfo) → IsProp (Apart a b)
Apart-prop a b = hlevel

pub Apart-symm : (a b : SessionDirInfo) → Apart a b → Apart b a
Apart-symm a b h = ground (arith, bytes_eq_iff a.path b.path, bytes_eq_iff b.path a.path)

module _ (u : Bytes → Option Metadata) where
  info-path : (name : Bytes) (x : Dir) (d : SessionDirInfo) → info u name x ≡ some d → d.path ≡ name
  unfolding info
  info-path name x d e = ground arith

  lookup-head : (k : Bytes) (x : Dir) (t : Map Dir) → lookup k ((k, x) ∷ t) ≡ some x
  unfolding lookup
  lookup-head k x t = rw (bytes_eq_refl k) refl

  -- An entry below stays where it is.
  pub Stands-below :
      (k : Bytes) (x : Dir) (t : Map Dir) (d : SessionDirInfo)
      → lookup k t ≡ none
      → (lookup d.path t >>= info u d.path) ≡ some d
      → (bytes_eq k d.path ≡ false) × ((lookup d.path ((k, x) ∷ t) >>= info u d.path) ≡ some d)
  unfolding lookup
  Stands-below k x t d absent e = elim (Bool-cases (bytes_eq k d.path)) [
    | inl same ↦
        let gone : lookup d.path t ≡ none =
          ap (λ j. lookup j t) (sym ((bytes_eq_iff k d.path).0 same)) ∙ absent in
        cc (rw gone at e)
    | inr other ↦ (other, rw other e)
  ]

  abbrev pub Listed : Map Dir → SessionDirInfo → Type 0
  Listed tree d = (lookup d.path tree >>= info u d.path) ≡ some d

  pub session_dirs-Listed :
      (tree : Map Dir)
      → Distinct tree
      → All (Listed tree) (session_dirs u tree) × AllPairs Apart (session_dirs u tree)
  unfolding session_dirs
  session_dirs-Listed [] h = (tt, tt)
  session_dirs-Listed ((k, x) ∷ t) (absent, h) =
      let (ih, apart) = session_dirs-Listed t h in
      let below = All-imp (session_dirs u t) (λ d e. (Stands-below k x t d absent e).1) ih in
      elim (Option-cases (info u k x)) [
        | inl e ↦ rw e (below, apart)
        | inr (d, e) ↦
            let at = info-path k x d e in
            let other =
              All-imp (session_dirs u t)
                (λ b l. ap (λ j. bytes_eq j b.path) at ∙ (Stands-below k x t b absent l).0) ih in
            let here : (lookup d.path ((k, x) ∷ t) >>= info u d.path) ≡ some d =
              subst (λ j. (lookup j ((k, x) ∷ t) >>= info u j) ≡ some d) (sym at)
                (rw (lookup-head k x t) e) in
            rw e ((here, below), (other, apart))
      ]

  pub completed-All :
      (P : SessionDirInfo → Type 0) (ds : List SessionDirInfo)
      → All P ds
      → All (λ d. P d × (has_ended d.ended_at ≡ true)) (completed ds)
  unfolding completed
  completed-All P [] h = tt
  completed-All P (d ∷ ds) h = elim (Option-cases d.ended_at) [
    | inl e ↦ rw (e, completed) (completed-All P ds h.1)
    | inr (t, e) ↦ rw (e, completed) ((h.0, ap has_ended e), completed-All P ds h.1)
  ]

  pub completed-AllPairs :
      (ds : List SessionDirInfo) → AllPairs Apart ds → AllPairs Apart (completed ds)
  unfolding completed
  completed-AllPairs [] h = tt
  completed-AllPairs (d ∷ ds) h = elim (Option-cases d.ended_at) [
    | inl e ↦ rw (e, completed) (completed-AllPairs ds h.1)
    | inr (t, e) ↦
        rw (e, completed)
          (
            All-imp (completed ds) (λ b k. k.0) (completed-All (Apart d) ds h.0),
            completed-AllPairs ds h.1,
          )
  ]

  sum-with_info :
      (o : Option SessionDirInfo) (ds : List SessionDirInfo)
      → sum_sizes (with_info o ds) ≡ sum_sizes (with_info o []) + sum_sizes ds
  unfolding sum_sizes
  sum-with_info none ds = omega arith
  sum-with_info (some d) ds = omega arith

  delete-absent : (k : Bytes) (t : Map Dir) → lookup k t ≡ none → delete k t ≡ t
  unfolding delete lookup
  delete-absent k [] e = refl
  delete-absent k ((j, x) ∷ t) e = ground (arith, delete-absent k t)

  -- A removal frees the size that is listed.
  pub sum-delete :
      (d : SessionDirInfo) (tree : Map Dir)
      → Distinct tree
      → Listed tree d
      → sum_sizes (session_dirs u (delete d.path tree)) + d.size ≡ sum_sizes (session_dirs u tree)
  unfolding session_dirs delete lookup sum_sizes
  sum-delete d [] h e = cc
  sum-delete d ((k, x) ∷ t) (absent, h) e = elim (Bool-cases (bytes_eq k d.path)) [
    | inl same ↦
        let at = (bytes_eq_iff k d.path).0 same in
        let clear = delete-absent d.path t (ap (λ j. lookup j t) (sym at) ∙ absent) in
        let found : info u k x ≡ some d = ap (λ j. info u j x) at ∙ rw same at e in
        rw (same, clear, found) (omega arith)
    | inr other ↦
        let ih = sum-delete d t h (rw other at e) in
        rw other (
          omega (
            arith,
            ih,
            sum-with_info (info u k x) (session_dirs u t),
            sum-with_info (info u k x) (session_dirs u (delete d.path t)),
          ))
  ]
