-- ===== src/Platform/Commands/Saved.antt =====
-- What the writer remembers, and what is on the disk, between its steps.
use wmux.Prelude.{
  ◌≡◌, refl, ◌∙◌, subst, inl, inr, not, ◌&&◌, if◌then◌else◌, Bool, true, false, Bool-cases, List,
  [], ◌∷◌, Option, some, Bytes, Map, arith,
}
use wmux.Prelude.Every.{All}
use wmux.Lifecycle.{SessionState}
use wmux.Platform.Commands.{
  File, Writer, Op, updates, flushes, closes, notices, fires, ends, update, flush, close, notice,
  fire, end, step, run,
}
use wmux.Platform.Commands.Disk.{
  states, noted, memory, ReadsBack, OnDisk, Tracks, flush_once-OnDisk,
}

module _ (marshal : File → Option Bytes) (unmarshal : Bytes → Option File) (path sess : Bytes) where
  -- What holds between two steps.
  pub record Sound (P : SessionState → Type 0) (m : Bool × Option SessionState)
      (st : Writer × Map Bytes) : Type 0 where
    pub tracks : Tracks marshal unmarshal path sess m st.0
    pub kept : (t : SessionState) → m.1 ≡ some t → P t
    pub readable : (t : SessionState) → P t → ReadsBack marshal unmarshal path sess t
    pub disk : OnDisk marshal unmarshal path sess P st.1

  abbrev Allows : (SessionState → Type 0) → Op → Type 0
  Allows P (updates s) = P s
  Allows P _ = Unit

  -- Only these fields matter.
  Tracks-same :
      (m : Bool × Option SessionState) (v w : Writer)
      → w.path ≡ v.path
      → w.sess_id ≡ v.sess_id
      → w.closed ≡ v.closed
      → w.has_state ≡ v.has_state
      → w.pending ≡ v.pending
      → Tracks marshal unmarshal path sess m v
      → Tracks marshal unmarshal path sess m w
  Tracks-same m v w p q r a b k = record {
    path_kept = p ∙ k.path_kept;
    sess_kept = q ∙ k.sess_kept;
    closing = r ∙ k.closing;
    holds = elim k.holds [
      | inl (e, h) ↦ inl (e, a ∙ h)
      | inr (t, e, h, x) ↦ inr (t, e, a ∙ h, b ∙ x)
    ];
  }

  update-Tracks :
      (s : SessionState) (shut : Bool) (t : Option SessionState) (w : Writer)
      → Tracks marshal unmarshal path sess (shut, t) w
      → Tracks marshal unmarshal path sess (shut, if shut then t else some s) (update s w)
  unfolding update
  update-Tracks s true t w k =
      rw (k.closing, update)
        (record {
          path_kept = k.path_kept;
          sess_kept = k.sess_kept;
          closing = refl;
          holds = k.holds;
        })
  update-Tracks s false t w k =
      rw (k.closing, update)
        (record {
          path_kept = k.path_kept;
          sess_kept = k.sess_kept;
          closing = refl;
          holds = inr (s, refl, refl, refl);
        })

  pub step-Tracks :
      (op : Op) (m : Bool × Option SessionState) (st : Writer × Map Bytes)
      → Tracks marshal unmarshal path sess m st.0
      → Tracks marshal unmarshal path sess (noted op m) (step marshal op st).0
  unfolding step flush close notice fire end
  step-Tracks (updates s) (shut, t) (w, disk) k = update-Tracks s shut t w k
  step-Tracks closes (shut, t) (w, disk) k = record {
    path_kept = k.path_kept;
    sess_kept = k.sess_kept;
    closing = refl;
    holds = k.holds;
  }
  step-Tracks (flushes now o) m (w, disk) k =
      Tracks-same m w _ (ground arith) (ground arith) (ground arith) (ground arith) (ground arith) k
  step-Tracks notices m (w, disk) k =
      Tracks-same m w _ (ground arith) (ground arith) (ground arith) (ground arith) (ground arith) k
  step-Tracks (fires now o) m (w, disk) k =
      Tracks-same m w _ (ground arith) (ground arith) (ground arith) (ground arith) (ground arith) k
  step-Tracks (ends now o) m (w, disk) k =
      Tracks-same m w _ (ground arith) (ground arith) (ground arith) (ground arith) (ground arith) k

  step-OnDisk :
      (P : SessionState → Type 0) (op : Op) (m : Bool × Option SessionState)
      (st : Writer × Map Bytes)
      → Sound P m st
      → OnDisk marshal unmarshal path sess P (step marshal op st).1
  unfolding step flush fire end
  step-OnDisk P (updates s) m (w, disk) v = v.disk
  step-OnDisk P closes m (w, disk) v = v.disk
  step-OnDisk P notices m (w, disk) v = v.disk
  step-OnDisk P (flushes now o) m (w, disk) v = elim (Bool-cases w.stopped) [
    | inl e ↦ rw (e, flush) v.disk
    | inr e ↦
        rw (e, flush)
          (flush_once-OnDisk marshal unmarshal path sess P m now o w disk v.tracks v.kept v.readable
            v.disk)
  ]
  step-OnDisk P (fires now o) m (w, disk) v = elim (Bool-cases (w.armed && not w.stopped)) [
    | inl e ↦
        rw (e, fire)
          (flush_once-OnDisk marshal unmarshal path sess P m now o w disk v.tracks v.kept v.readable
            v.disk)
    | inr e ↦ rw (e, fire) v.disk
  ]
  step-OnDisk P (ends now o) m (w, disk) v = elim (Bool-cases (w.closed && not w.stopped)) [
    | inl e ↦
        rw (e, end)
          (flush_once-OnDisk marshal unmarshal path sess P m now o w disk v.tracks v.kept v.readable
            v.disk)
    | inr e ↦ rw (e, end) v.disk
  ]

  noted-kept :
      (P : SessionState → Type 0) (op : Op) (m : Bool × Option SessionState)
      → Allows P op
      → ((t : SessionState) → m.1 ≡ some t → P t)
      → (t : SessionState) → (noted op m).1 ≡ some t
      → P t
  noted-kept P (updates s) (true, u) a k t e = k t e
  noted-kept P (updates s) (false, u) a k t e = let same : s ≡ t = cc in subst P same a
  noted-kept P closes (shut, u) a k t e = k t e
  noted-kept P (flushes now o) m a k t e = k t e
  noted-kept P notices m a k t e = k t e
  noted-kept P (fires now o) m a k t e = k t e
  noted-kept P (ends now o) m a k t e = k t e

  pub run-Sound :
      (P : SessionState → Type 0) (os : List Op) (m : Bool × Option SessionState)
      (st : Writer × Map Bytes)
      → All P (states os)
      → Sound P m st
      → Sound P (memory os m) (run marshal os st)
  unfolding run
  run-Sound P [] m st a v = v
  run-Sound P (op ∷ os) m st a v =
      run-Sound P os (noted op m) (step marshal op st) (rest op a) (record {
        tracks = step-Tracks op m st v.tracks;
        kept = noted-kept P op m (head op a) v.kept;
        readable = v.readable;
        disk = step-OnDisk P op m st v;
      })
    where
      rest : (op : Op) → All P (states (op ∷ os)) → All P (states os)
      rest (updates s) a = a.1
      rest closes a = a
      rest (flushes now o) a = a
      rest notices a = a
      rest (fires now o) a = a
      rest (ends now o) a = a

      head : (op : Op) → All P (states (op ∷ os)) → Allows P op
      head (updates s) a = a.0
      head closes a = tt
      head (flushes now o) a = tt
      head notices a = tt
      head (fires now o) a = tt
      head (ends now o) a = tt
