-- ===== src/Daemon/Restart/Updates.antt =====
-- What the update of the metadata of an orphan does.
use wmux.Prelude.{
  ℕ, ◌≡◌, refl, ap, ◌∙◌, ◌⊎◌, inl, inr, true, false, Bool-cases, List, [], ◌∷◌, Option, none, some,
  Option-cases, Bytes, bytes_eq, bytes_eq_iff, if◌then◌else◌, ◌>>=◌,
}
use wmux.Prelude.Int.{negsuc}
use wmux.Platform.SessionDirs.{
  Metadata, Dir, WriteResult, writes, cuts, File, Error, SessionDirInfo, meta_file_name, read_file,
  write_file, read_metadata, write_metadata, store, write_failed, update_metadata_exit, info,
  dir_size,
}
use wmux.Daemon.Restart.Settled.{exited, Orphan, Settled}

read-write_file :
    (n content : Bytes) (fs : List File) (old : Bytes)
    → read_file n fs ≡ some old
    → read_file n (write_file n content fs) ≡ some content
unfolding read_file write_file
read-write_file n content [] old e = cc
read-write_file n content (f ∷ fs) old e = elim (Bool-cases (bytes_eq f.name n)) [
  | inl same ↦ elim (Bool-cases f.is_dir) [
    | inl d ↦ cc (rw (same, d) at e)
    | inr d ↦ rw (same, read_file) (rw (same, d) refl)
  ]
  | inr other ↦ rw (other, read_file) (rw other (read-write_file n content fs old (rw other at e)))
]

-- The other files stay behind a write.
read-write_file_ne :
    (n j content : Bytes) (fs : List File)
    → bytes_eq n j ≡ false
    → (old : Bytes) → read_file n fs ≡ some old
    → read_file j (write_file n content fs) ≡ read_file j fs
unfolding read_file write_file
read-write_file_ne n j content [] ne old e = cc
read-write_file_ne n j content (f ∷ fs) ne old e = elim (Bool-cases (bytes_eq f.name n)) [
  | inl same ↦
      let at : bytes_eq f.name j ≡ false =
        ap (λ i. bytes_eq i j) ((bytes_eq_iff f.name n).0 same) ∙ ne in
      rw (same, read_file) (rw at refl)
  | inr other ↦
      rw (other, read_file)
        (ap (λ r. if bytes_eq f.name j then if f.is_dir then none else some f.content else r)
          (read-write_file_ne n j content fs ne old (rw other at e)))
]

abbrev pub listed : Bytes → Dir → Metadata → SessionDirInfo
listed k x m = record {
  path = k;
  session_id = m.session_id;
  ended_at = m.ended_at;
  size = dir_size x;
}

pub info-listed :
    (u : Bytes → Option Metadata) (k : Bytes) (x : Dir) (m : Metadata)
    → x.is_dir ≡ true
    → read_metadata u x ≡ inr m
    → info u k x ≡ some (listed k x m)
unfolding info
info-listed u k x m e r = rw (info, e, r) refl

pub read_metadata-cases :
    (u : Bytes → Option Metadata) (x : Dir)
    → ((e : Error) × (read_metadata u x ≡ inl e)) ⊎ ((m : Metadata) × (read_metadata u x ≡ inr m))
read_metadata-cases u x = by_case (read_metadata u x) refl
  where
    by_case :
        (r : Error ⊎ Metadata)
        → read_metadata u x ≡ r
        → ((e : Error) × (read_metadata u x ≡ inl e))
          ⊎ ((m : Metadata) × (read_metadata u x ≡ inr m))
    by_case (inl e) h = inl (e, h)
    by_case (inr m) h = inr (m, h)

abbrev pub hit_of : Option Error → ℕ
hit_of none = 1
hit_of (some _) = 0

module _ (u : Bytes → Option Metadata) (marshal : Metadata → Option Bytes) where
  read_metadata-text :
      (x : Dir) (m : Metadata)
      → read_metadata u x ≡ inr m
      → (text : Bytes) × (read_file meta_file_name x.files ≡ some text) × (u text ≡ some m)
  unfolding read_metadata
  read_metadata-text x m e = elim (Option-cases (read_file meta_file_name x.files)) [
    | inl h ↦ cc (rw (read_metadata, h) at e)
    | inr (text, h) ↦ elim (Option-cases (u text)) [
      | inl g ↦ cc (rw (read_metadata, h, g) at e)
      | inr (k, g) ↦ (text, h, cc (rw (read_metadata, h, g) at e))
    ]
  ]

  abbrev pub Updated : WriteResult → ℕ → Dir → Type 0
  Updated wrote now x =
      (y : Dir) × (e : Option Error) × (update_metadata_exit u marshal wrote now (negsuc 0) x
        ≡ (y, e))
      × Settled u wrote now x y (hit_of e)

  -- What the update of an orphan does.
  pub update-Settled :
      (wrote : WriteResult) (x : Dir) (m : Metadata) (now : ℕ)
      → ((text : Bytes) (k : Metadata)
          → u text ≡ some k
          → (t : ℕ) → (marshal (exited t k) >>= u) ≡ some (exited t k))
      → Orphan u x m
      → Updated wrote now x
  unfolding update_metadata_exit write_metadata store read_metadata
  update-Settled wrote x m now back (dir, read, runs) =
      let (old, at, is) = read_metadata-text x m read in
      let again = back old m is now in
      elim (Option-cases (marshal (exited now m))) [
        | inl h ↦ cc (rw h at again)
        | inr (text, h) ↦ elim wrote as (λ o. Updated o now x) [
          | writes ↦
              let reads : u text ≡ some (exited now m) = rw h at again in
              let found = read-write_file meta_file_name text x.files old at in
              (
                record x { files = write_file meta_file_name text x.files },
                none,
                rw (read, update_metadata_exit) (rw (h, write_metadata) refl),
                inl (
                  m,
                  (dir, read, runs),
                  refl,
                  refl,
                  dir,
                  rw (found, read_metadata) (rw reads refl),
                  λ n ne. read-write_file_ne meta_file_name n text x.files ne old at,
                ),
              )
          | cuts none ↦ (
            x,
            some write_failed,
            rw (read, update_metadata_exit) (rw (h, write_metadata) refl),
            inr (inl ((m, (dir, read, runs), none, refl, refl), refl)),
          )
          | cuts (some part) ↦ (
            record x { files = write_file meta_file_name part x.files },
            some write_failed,
            rw (read, update_metadata_exit) (rw (h, write_metadata) refl),
            inr (
                inl (
                  (
                    m,
                    (dir, read, runs),
                    some part,
                    refl,
                    (
                      dir,
                      read-write_file meta_file_name part x.files old at,
                      λ n ne. read-write_file_ne meta_file_name n part x.files ne old at,
                    ),
                  ),
                  refl,
                )),
          )
        ]
      ]
