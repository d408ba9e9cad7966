-- ===== src/Platform/Ansi.antt =====
-- internal/platform/ansi/strip.go: `Strip`. Each inner loop of the code is a mode.
use wmux.Prelude.{
  ℕ, ◌≡◌, refl, ap, ◌∙◌, leb, ◌==◌, ◌&&◌, not, if◌then◌else◌, Bool, true, false, Bool-cases, inl,
  inr, [], ◌∷◌, ◌++◌, Bytes, arith,
}
use wmux.Prelude.Search.{NoByte}

abbrev pub esc : ℕ
esc = 27

-- Before a byte of text, behind an ESC, in a CSI sequence, in an OSC sequence, and at the '\\' of a
-- string terminator.
pub data Mode : Type 0 where
  plain escape csi osc st : Mode

-- The mode behind one byte, where `next_is_backslash` looks at `data[i+1]`.
unfoldable pub next_mode : Mode → ℕ → Bool → Mode
next_mode plain c b = if c == esc then escape else plain
next_mode escape c b = if c == b'[' then csi else if c == b']' then osc else plain
next_mode csi c b = if leb 64 c && leb c 126 then plain else csi
next_mode osc c b = if c == 7 then plain else if c == esc && b then st else osc
next_mode st c b = plain

-- Only text that is not an ESC is kept.
unfoldable pub kept : Mode → ℕ → Bool
kept plain c = not (c == esc)
kept _ c = false

abbrev pub next_is_backslash : Bytes → Bool
next_is_backslash [] = false
next_is_backslash (c ∷ s) = c == b'\\'

abbrev pub keep : Bool → ℕ → Bytes → Bytes
keep true c s = c ∷ s
keep false c s = s

unfoldable pub strip_in : Mode → Bytes → Bytes
unfolding next_mode kept
strip_in m [] = []
strip_in m (c ∷ s) = keep (kept m c) c (strip_in (next_mode m c (next_is_backslash s)) s)

unfoldable pub strip : Bytes → Bytes
unfolding strip_in
strip s = strip_in plain s

keep-NoByte : (m : Mode) (c : ℕ) (s : Bytes) → NoByte esc s → NoByte esc (keep (kept m c) c s)
unfolding kept
keep-NoByte plain c s h = elim (Bool-cases (c == esc)) [
  | inl e ↦ rw e h
  | inr e ↦ rw e (rw e refl, h)
]
keep-NoByte escape c s h = h
keep-NoByte csi c s h = h
keep-NoByte osc c s h = h
keep-NoByte st c s h = h

strip_in-NoByte : (m : Mode) (s : Bytes) → NoByte esc (strip_in m s)
unfolding strip_in
strip_in-NoByte m [] = tt
strip_in-NoByte m (c ∷ s) =
    keep-NoByte m c _ (strip_in-NoByte (next_mode m c (next_is_backslash s)) s)

strip_in-plain : (s : Bytes) → NoByte esc s → strip_in plain s ≡ s
unfolding strip_in next_mode kept
strip_in-plain [] h = refl
strip_in-plain (c ∷ s) (h, hs) = ground (arith, strip_in-plain s hs)

-- The stripped text has no ESC, whatever the input and wherever it is cut off; text without an ESC
-- stays as it is; so stripping a second time changes nothing.
pub strip-NoByte :
    (s : Bytes) → NoByte esc (strip s) × (NoByte esc s → strip s ≡ s) × (strip (strip s) ≡ strip s)
unfolding strip
strip-NoByte s = (
  strip_in-NoByte plain s,
  strip_in-plain s,
  strip_in-plain (strip_in plain s) (strip_in-NoByte plain s),
)

-- Where a sequence ends: what stands before it and behind it is stripped on its own.
strip_in-skip :
    (s rest : Bytes) → NoByte esc s → strip_in plain (s ++ rest) ≡ s ++ strip_in plain rest
unfolding strip_in next_mode kept
strip_in-skip [] rest h = refl
strip_in-skip (c ∷ s) rest (h, hs) = ground (arith, strip_in-skip s rest hs)

-- The bytes of a CSI sequence before its final byte.
abbrev IsParameters : Bytes → Type 0
IsParameters [] = Unit
IsParameters (c ∷ s) = ((leb 64 c && leb c 126) ≡ false) × IsParameters s

csi-ends :
    (params : Bytes) (final : ℕ) (rest : Bytes)
    → IsParameters params
    → (leb 64 final && leb final 126) ≡ true
    → strip_in csi (params ++ final ∷ rest) ≡ strip_in plain rest
unfolding strip_in next_mode kept
csi-ends [] final rest h f = rw f refl
csi-ends (c ∷ s) final rest (h, hs) f = rw h (csi-ends s final rest hs f)

-- A complete CSI sequence behind plain text is taken out, and the text behind it is stripped on.
strip-csi :
    (before params : Bytes) (final : ℕ) (rest : Bytes)
    → NoByte esc before
    → IsParameters params
    → (leb 64 final && leb final 126) ≡ true
    → strip (before ++ esc ∷ b'[' ∷ (params ++ final ∷ rest)) ≡ before ++ strip rest
unfolding strip strip_in next_mode kept
strip-csi before params final rest h p f =
    strip_in-skip before (esc ∷ b'[' ∷ (params ++ final ∷ rest)) h
    ∙ ap (λ x. before ++ x) (csi-ends params final rest p f)
