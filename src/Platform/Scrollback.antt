-- ===== src/Platform/Scrollback.antt =====
-- internal/platform/history/writer.go: the scrollback writer. What `os.File.Write` does is the
-- argument `file`: how many of the bytes it wrote, and whether without an error.
use wmux.Prelude.{
  ℕ, zero, suc, ◌+◌, ◌-◌, ◌≤◌, ◌<◌, ◌≡◌, refl, sym, ap, ◌∙◌, leb, ltb, if◌then◌else◌, Bool, true,
  false, Bool-cases, inl, inr, List, [], ◌∷◌, ◌++◌, Option, none, some, Bytes, length, take, arith,
  length-append, length-take, append-nil, append_assoc, subst,
}

pub data Error : Type 0 where
  writer_closed write_scrollback close_scrollback : Error

-- `content` is what has been written to the file.
pub record Writer : Type 0 where
  pub content : Bytes
  pub written : ℕ
  pub max_size : ℕ
  pub closed : Bool

unfoldable pub new_writer : ℕ → Writer
new_writer max_size = record { content = []; written = 0; max_size = max_size; closed = false }

abbrev append : Bytes → ℕ × Bool → Writer → Writer × ℕ × Option Error
append p (n, fine) w = (
  record w { content = w.content ++ take n p; written = w.written + n },
  n,
  (if fine then none else some write_scrollback),
)

-- `Write`: the count and the error that it returns.
unfoldable pub write : (Bytes → ℕ × Bool) → Bytes → Writer → Writer × ℕ × Option Error
write file p w =
    if w.closed
    then (w, 0, some writer_closed)
    else if ltb 0 w.max_size
    then if leb w.max_size w.written
      then (w, 0, none)
      else if ltb (w.max_size - w.written) (length p)
      then append (take (w.max_size - w.written) p) (file (take (w.max_size - w.written) p)) w
      else append p (file p) w
    else append p (file p) w

-- `Close`; `fine` is what closing the file reports.
unfoldable pub close : Bool → Writer → Writer × Option Error
close fine w =
    if w.closed
    then (w, none)
    else (record w { closed = true }, (if fine then none else some close_scrollback))

take-all : (m : ℕ) (s : Bytes) → length s ≤ m → take m s ≡ s
take-all zero [] h = refl
take-all zero (c ∷ s) h = ground arith
take-all (suc m) [] h = refl
take-all (suc m) (c ∷ s) h = ap (◌∷◌ c) (take-all m s (omega arith))

take-append_fit :
    (m : ℕ) (s t : Bytes) → length s ≤ m → take m (s ++ t) ≡ s ++ take (m - length s) t
take-append_fit m [] t h = ap (λ k. take k t) (omega arith)
take-append_fit zero (c ∷ s) t h = ground arith
take-append_fit (suc m) (c ∷ s) t h =
    let e : suc m - suc (length s) ≡ m - length s = omega arith in
    rw e (ap (◌∷◌ c) (take-append_fit m s t (omega arith)))

take-take-append : (m : ℕ) (s t : Bytes) → take m (take m s ++ t) ≡ take m (s ++ t)
take-take-append zero s t = refl
take-take-append (suc m) [] t = refl
take-take-append (suc m) (c ∷ s) t = ap (◌∷◌ c) (take-take-append m s t)

abbrev pub concat : List Bytes → Bytes
concat [] = []
concat (p ∷ ps) = p ++ concat ps

-- An open writer with a cap, within it.
pub record IsCapped (w : Writer) : Type 0 where
  pub open_file : w.closed ≡ false
  pub capped : 0 < w.max_size
  pub counted : w.written ≡ length w.content
  pub within : w.written ≤ w.max_size

pub record Wrote (p : Bytes) (w v : Writer) : Type 0 where
  pub content : v.content ≡ take w.max_size (w.content ++ p)
  pub same_max : v.max_size ≡ w.max_size
  pub still : IsCapped v

-- Writes one after the other.
abbrev pub write_all : (Bytes → ℕ × Bool) → List Bytes → Writer → Writer
write_all file [] w = w
write_all file (p ∷ ps) w = write_all file ps (write file p w).0

module _ (file : Bytes → ℕ × Bool) (whole : (p : Bytes) → file p ≡ (length p, true)) where
  append-Wrote :
      (p q : Bytes) (w : Writer)
      → IsCapped w
      → w.content ++ q ≡ take w.max_size (w.content ++ p)
      → w.written + length q ≤ w.max_size
      → Wrote p w (append q (file q) w).0
  append-Wrote p q w v e fits =
      rw (whole q, take-all (length q) q (omega arith))
        (record {
          content = e;
          same_max = refl;
          still = record {
            open_file = v.open_file;
            capped = v.capped;
            counted = omega (arith, length-append w.content q, v.counted);
            within = fits;
          };
        })

  write-Wrote : (p : Bytes) (w : Writer) → IsCapped w → Wrote p w (write file p w).0
  unfolding write
  write-Wrote p w v = elim (Bool-cases (leb w.max_size w.written)) [
    | inl full ↦
        let e : write file p w ≡ (w, 0, none) = ground (arith, v.open_file, v.capped) in
        let no_room : w.max_size - length w.content ≡ 0 = ground (arith, full, v.counted) in
        subst (λ r. Wrote p w r.0) (sym e)
          (record {
            content =
                sym (append-nil w.content)
                ∙ sym (ap (λ k. w.content ++ take k p) no_room)
                ∙ sym (take-append_fit w.max_size w.content p (omega (arith, v.counted, v.within)));
            same_max = refl;
            still = v;
          })
    | inr room ↦ elim (Bool-cases (ltb (w.max_size - w.written) (length p))) [
      | inl cut ↦
          let q : Bytes = take (w.max_size - w.written) p in
          let same_room : w.max_size - w.written ≡ w.max_size - length w.content =
            omega (arith, v.counted) in
          let e : write file p w ≡ append q (file q) w = ground (arith, v.open_file, v.capped) in
          subst (λ r. Wrote p w r.0) (sym e)
            (append-Wrote p q w v
              (ap (λ k. w.content ++ take k p) same_room
                ∙ sym (take-append_fit w.max_size w.content p (omega (arith, v.counted, v.within))))
              (ground (arith, room, cut, length-take (w.max_size - w.written) p)))
      | inr fits ↦
          let e : write file p w ≡ append p (file p) w = ground (arith, v.open_file, v.capped) in
          subst (λ r. Wrote p w r.0) (sym e)
            (append-Wrote p p w v
              (sym (
                take-all w.max_size (w.content ++ p)
                  (ground (arith, room, fits, length-append w.content p, v.counted))))
              (ground (arith, room, fits)))
    ]
  ]

  write_all-Wrote :
      (ps : List Bytes) (w : Writer) → IsCapped w → Wrote (concat ps) w (write_all file ps w)
  write_all-Wrote [] w v = record {
    content =
        sym (take-all w.max_size w.content (omega (arith, v.counted, v.within)))
        ∙ ap (take w.max_size) (sym (append-nil w.content));
    same_max = refl;
    still = v;
  }
  write_all-Wrote (p ∷ ps) w v =
      let a = write-Wrote p w v in
      let b = write_all-Wrote ps (write file p w).0 a.still in
      record {
        content =
            b.content
            ∙ ap (λ k. take k ((write file p w).0.content ++ concat ps)) a.same_max
            ∙ ap (λ s. take w.max_size (s ++ concat ps)) a.content
            ∙ take-take-append w.max_size (w.content ++ p) (concat ps)
            ∙ ap (take w.max_size) (append_assoc w.content p (concat ps));
        same_max = b.same_max ∙ a.same_max;
        still = b.still;
      }

  -- A new writer with a cap, over a file that takes all it is given, holds after any writes the
  -- first bytes of all that was to be written, up to the cap, and counts exactly what it holds.
  pub write_all-new_writer :
      (max_size : ℕ) (ps : List Bytes)
      → 0 < max_size
      → ((write_all file ps (new_writer max_size)).content ≡ take max_size (concat ps))
        × ((write_all file ps (new_writer max_size)).written ≡ length (take max_size (concat ps)))
  unfolding new_writer
  write_all-new_writer max_size ps h =
      let start : IsCapped (new_writer max_size) = record {
        open_file = refl;
        capped = h;
        counted = refl;
        within = omega arith;
      } in
      let a = write_all-Wrote ps (new_writer max_size) start in
      (a.content, a.still.counted ∙ ap length a.content)
