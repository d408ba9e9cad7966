-- ===== src/Platform/Commands/Loads.antt =====
-- What `Load` finds of what the writer was given.
use mathlib.Core.List.{Mem}
use wmux.Prelude.{
  ℕ, ◌≡◌, refl, sym, ap, ◌∙◌, subst, ◌⊎◌, inl, inr, Bool, true, false, List, [], ◌∷◌, Option, none,
  some, Option-cases, Bytes, Map, lookup, lookup-insert_self, insert, delete, ◌>>=◌, arith,
}
use wmux.Prelude.Every.{All, All-both, mem-All}
use wmux.Lifecycle.{SessionState}
use wmux.Platform.Commands.{
  File, Writer, new_writer, saves, tmp, write_atomic, file_of, flush_once, Op, closes, ends, flush,
  close, end, step, run, load, load_from, zero_file,
}
use wmux.Platform.Commands.Disk.{states, memory, ReadsBack, Tracks, flush_once-write, load-file_of}
use wmux.Platform.Commands.Saved.{Sound, step-Tracks, run-Sound}

new_writer-starts :
    (path sess : Bytes) (w : Writer)
    → new_writer path sess ≡ inr w
    → (w.path ≡ path) × (w.sess_id ≡ sess) × (w.closed ≡ false) × (w.has_state ≡ false)
unfolding new_writer
new_writer-starts [] sess w e = cc
new_writer-starts (c ∷ path) [] w e = cc
new_writer-starts (c ∷ path) (d ∷ sess) w e = ground arith

module _ (marshal : File → Option Bytes) (unmarshal : Bytes → Option File) (path sess : Bytes)
    (w : Writer) (disk : Map Bytes) (made : new_writer path sess ≡ inr w)
    (absent : lookup path disk ≡ none) where
  after :
      (P : SessionState → Type 0) (os : List Op)
      → ((t : SessionState) → P t → ReadsBack marshal unmarshal path sess t)
      → All P (states os)
      → Sound marshal unmarshal path sess P (memory os (false, none)) (run marshal os (w, disk))
  after P os b a =
      let (p, q, r, h) = new_writer-starts path sess w made in
      run-Sound marshal unmarshal path sess P os (false, none) (w, disk) a
        (record {
          tracks = record { path_kept = p; sess_kept = q; closing = r; holds = inl (refl, h) };
          kept = λ t e. cc;
          readable = b;
          disk = inl absent;
        })

  -- A save that goes well can be loaded.
  saved-load :
      (m : Bool × Option SessionState) (t : SessionState) (now : ℕ) (v : Writer) (d : Map Bytes)
      → m.1 ≡ some t
      → ReadsBack marshal unmarshal path sess t
      → Tracks marshal unmarshal path sess m v
      → (load_from unmarshal path (flush_once marshal now saves v d).0 ≡ (file_of sess now t, none))
        × ((flush_once marshal now saves v d).1 ≡ none)
  unfolding write_atomic
  saved-load (shut, none) t now v d e b k = cc
  saved-load (shut, some u) t now v d e b k =
      let is : u ≡ t = cc in
      let (text, back, same) =
        flush_once-write marshal unmarshal path sess shut u now saves v d
          (subst (ReadsBack marshal unmarshal path sess) (sym is) b) k in
      let after = insert path text (delete (tmp path) d) in
      let loads =
        load-file_of marshal unmarshal path sess now u after text
          (lookup-insert_self path text (delete (tmp path) d)) back in
      rw same (loads ∙ ap (λ s. (file_of sess now s, none)) is, refl)

  found-load :
      (now : ℕ) (s : SessionState) (d : Map Bytes)
      → (lookup path d >>= unmarshal) ≡ some (file_of sess now s)
      → load_from unmarshal path d ≡ (file_of sess now s, none)
  found-load now s d e = elim (Option-cases (lookup path d)) [
    | inl none_there ↦ cc (rw none_there at e)
    | inr (text, at) ↦ load-file_of marshal unmarshal path sess now s d text at (rw at at e)
  ]

  -- Over a disk without the file, for states whose files can be read back, whatever the calls of the writer and the rounds of its loop have
  -- been, and whatever of its writes and renames have failed: `Load` reports no error, and finds
  -- nothing, or a whole file of the session that holds one of the states that were given.
  pub run-load :
      (os : List Op)
      → All (ReadsBack marshal unmarshal path sess) (states os)
      → (load_from unmarshal path (run marshal os (w, disk)).1 ≡ (zero_file, none))
        ⊎ ((now : ℕ) × (s : SessionState) × (load_from unmarshal path (run marshal os (w, disk)).1
              ≡ (file_of sess now s, none))
            × Mem s (states os))
  unfolding load_from load
  run-load os b =
      let given = mem-All (λ s. Mem s (states os)) (states os) (λ a m. m) in
      let v =
        after (λ s. Mem s (states os) × ReadsBack marshal unmarshal path sess s) os (λ t h. h.1)
          (All-both (λ s. Mem s (states os)) (ReadsBack marshal unmarshal path sess) (states os)
            given b) in
      elim v.disk [
        | inl e ↦ inl (rw (e, load_from) refl)
        | inr (f, e, (now, s, same, m)) ↦
            inr (now, s, found-load now s (run marshal os (w, disk)).1 (e ∙ ap some same), m.0)
      ]

  -- For states whose files can be read back and while the loop runs, a `Flush` whose write goes well reports no error, and behind it, and just
  -- as well behind a `Close` with its last round, `Load` finds the last state that was given before
  -- any close.
  pub run-latest :
      (os : List Op) (s : SessionState) (now : ℕ)
      → All (ReadsBack marshal unmarshal path sess) (states os)
      → (run marshal os (w, disk)).0.stopped ≡ false
      → (memory os (false, none)).1 ≡ some s
      → ((flush marshal now saves (run marshal os (w, disk))).1 ≡ none)
        × (load_from unmarshal path (flush marshal now saves (run marshal os (w, disk))).0.1
            ≡ (file_of sess now s, none))
        × (load_from unmarshal path
              (run marshal (closes ∷ ends now saves ∷ []) (run marshal os (w, disk))).1
            ≡ (file_of sess now s, none))
  unfolding flush run step end close
  run-latest os s now b running e =
      let st = run marshal os (w, disk) in
      let v = after (ReadsBack marshal unmarshal path sess) os (λ t h. h) b in
      let m = memory os (false, none) in
      let k' = step-Tracks marshal unmarshal path sess closes m st v.tracks in
      let (loaded, fine) = saved-load m s now st.0 st.1 e (v.kept s e) v.tracks in
      let closed = saved-load (true, m.1) s now (close st.0) st.1 e (v.kept s e) k' in
      (rw (running, flush) fine, rw (running, flush) loaded, rw running closed.0)
