-- ===== src/Platform/Commands/Disk.antt =====
-- What a writer remembers, and what a save of it makes of the disk.
use wmux.Prelude.{
  ℕ, ◌≡◌, refl, ap, ◌⊎◌, inl, inr, if◌then◌else◌, Bool, true, false, Bool-cases, List, [], ◌∷◌,
  Option, none, some, Option-cases, Bytes, codes, bytes_eq, bytes_eq_iff, length, length-append,
  Map, lookup, delete, lookup-insert_self, lookup-insert_ne, lookup-delete_ne, arith, ◌>>=◌,
}
use wmux.Lifecycle.{SessionState}
use wmux.Platform.Commands.{
  File, Writer, Outcome, write_fails, rename_fails, saves, tmp, write_atomic, file_of, flush_once,
  Op, updates, closes, load, load_from, check_version,
}

-- The states that the writer is given, in order.
abbrev pub states : List Op → List SessionState
states [] = []
states (updates s ∷ os) = s ∷ states os
states (_ ∷ os) = states os

-- Whether the close has come, and the last state before it.
abbrev pub noted : Op → Bool × Option SessionState → Bool × Option SessionState
noted (updates t) (shut, s) = (shut, if shut then s else some t)
noted closes (shut, s) = (true, s)
noted _ m = m

abbrev pub memory : List Op → Bool × Option SessionState → Bool × Option SessionState
memory [] m = m
memory (op ∷ os) m = memory os (noted op m)

-- A file of the session that holds a state with the property.
abbrev pub FileOf : (SessionState → Type 0) → Bytes → File → Type 0
FileOf P sess f = (now : ℕ) × (s : SessionState) × (f ≡ file_of sess now s) × P s

module _ (marshal : File → Option Bytes) (unmarshal : Bytes → Option File) (path sess : Bytes) where
  -- What is made of the files with the state can be read back.
  abbrev pub ReadsBack : SessionState → Type 0
  ReadsBack s = (now : ℕ) → (marshal (file_of sess now s) >>= unmarshal) ≡ some (file_of sess now s)

  -- The disk holds no file, or one of the session.
  abbrev pub OnDisk : (SessionState → Type 0) → Map Bytes → Type 0
  OnDisk P disk =
      (lookup path disk ≡ none)
      ⊎ ((f : File) × ((lookup path disk >>= unmarshal) ≡ some f) × FileOf P sess f)

  -- What the fields of the writer remember.
  pub record Tracks (m : Bool × Option SessionState) (w : Writer) : Type 0 where
    pub path_kept : w.path ≡ path
    pub sess_kept : w.sess_id ≡ sess
    pub closing : w.closed ≡ m.0
    pub holds :
        ((m.1 ≡ none) × (w.has_state ≡ false))
        ⊎ ((t : SessionState) × (m.1 ≡ some t) × (w.has_state ≡ true) × (w.pending ≡ t))

  tmp_ne : bytes_eq (tmp path) path ≡ false
  tmp_ne = elim (Bool-cases (bytes_eq (tmp path) path)) [
    | inl e ↦
        let same = ap length ((bytes_eq_iff (tmp path) path).0 e) in
        absurd (omega (arith, length-append path (codes ".tmp"), same))
    | inr e ↦ e
  ]

  marshal-text :
      (f : File)
      → (marshal f >>= unmarshal) ≡ some f
      → (text : Bytes) × (marshal f ≡ some text) × (unmarshal text ≡ some f)
  marshal-text f h = elim (Option-cases (marshal f)) [
    | inl e ↦ cc (rw e at h)
    | inr (text, e) ↦ (text, e, rw e at h)
  ]

  -- A save writes the last state, or nothing if there is none.
  pub flush_once-write :
      (shut : Bool) (t : SessionState) (now : ℕ) (o : Outcome) (w : Writer) (disk : Map Bytes)
      → ReadsBack t
      → Tracks (shut, some t) w
      → (text : Bytes) × (unmarshal text ≡ some (file_of sess now t))
        × (flush_once marshal now o w disk ≡ write_atomic o path text disk)
  unfolding flush_once
  flush_once-write shut t now o w disk b k = elim k.holds [
    | inl (e, h) ↦ cc
    | inr (u, e, h, p) ↦
        let (text, m, back) = marshal-text (file_of sess now t) (b now) in
        let same : w.pending ≡ t = cc in
        (text, back, rw (h, same, k.sess_kept, m, k.path_kept) refl)
  ]

  flush_once-idle :
      (shut : Bool) (now : ℕ) (o : Outcome) (w : Writer) (disk : Map Bytes)
      → Tracks (shut, none) w
      → flush_once marshal now o w disk ≡ (disk, none)
  unfolding flush_once
  flush_once-idle shut now o w disk k = elim k.holds [
    | inl (e, h) ↦ rw h refl
    | inr (u, e, h, p) ↦ cc
  ]

  write_atomic-OnDisk :
      (P : SessionState → Type 0) (o : Outcome) (text : Bytes) (disk : Map Bytes) (f : File)
      → unmarshal text ≡ some f
      → FileOf P sess f
      → OnDisk P disk
      → OnDisk P (write_atomic o path text disk).0
  unfolding write_atomic
  write_atomic-OnDisk P (write_fails none) text disk f e h d = d
  write_atomic-OnDisk P (write_fails (some part)) text disk f e h d =
      rw (lookup-insert_ne (tmp path) path part disk tmp_ne) d
  write_atomic-OnDisk P rename_fails text disk f e h d =
      rw (lookup-delete_ne (tmp path) path disk tmp_ne) d
  write_atomic-OnDisk P saves text disk f e h d =
      inr (f, rw (lookup-insert_self path text (delete (tmp path) disk)) e, h)

  pub flush_once-OnDisk :
      (P : SessionState → Type 0) (m : Bool × Option SessionState) (now : ℕ) (o : Outcome)
      (w : Writer) (disk : Map Bytes)
      → Tracks m w
      → ((t : SessionState) → m.1 ≡ some t → P t)
      → ((t : SessionState) → P t → ReadsBack t)
      → OnDisk P disk
      → OnDisk P (flush_once marshal now o w disk).0
  flush_once-OnDisk P (shut, none) now o w disk k p b d = rw (flush_once-idle shut now o w disk k) d
  flush_once-OnDisk P (shut, some t) now o w disk k p b d =
      let (text, back, same) = flush_once-write shut t now o w disk (b t (p t refl)) k in
      rw same
        (write_atomic-OnDisk P o text disk (file_of sess now t) back (now, t, refl, p t refl) d)

  pub load-file_of :
      (now : ℕ) (t : SessionState) (disk : Map Bytes) (text : Bytes)
      → lookup path disk ≡ some text
      → unmarshal text ≡ some (file_of sess now t)
      → load_from unmarshal path disk ≡ (file_of sess now t, none)
  unfolding load_from load check_version
  load-file_of now t disk text e back = rw (e, back, load, load_from) refl
