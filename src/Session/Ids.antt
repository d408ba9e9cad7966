-- ===== src/Session/Ids.antt =====
-- internal/session/values.go. Ids are walked byte by byte: a rune that is not ASCII is at least 128,
-- and so are its bytes, and none of either is allowed.
use wmux.Prelude.{
  ℕ, suc, ◌≡◌, refl, ◌≢◌, ◌↔◌, ◌⊎◌, inl, inr, leb, ltb, ◌==◌, ◌&&◌, ◌||◌, if◌then◌else◌, Bool, true,
  false, [], ◌∷◌, ◌++◌, none, some, Bytes, codes, length, take, drop, arith,
}
use wmux.Prelude.Search.{contains, last_index_byte, last_index_byte-cases, AllBytes, NoByte}

abbrev within : ℕ → ℕ → ℕ → Bool
within lo hi c = leb lo c && leb c hi

unfoldable pub is_allowed_id_rune : ℕ → Bool
is_allowed_id_rune c =
    within b'a' b'z' c
    || within b'A' b'Z' c
    || within b'0' b'9' c
    || c == b'-'
    || c == b'_'
    || c == b'/'

unfoldable pub is_allowed_prefix_rune : ℕ → Bool
is_allowed_prefix_rune c =
    within b'a' b'z' c || within b'A' b'Z' c || within b'0' b'9' c || c == b'-' || c == b'_'

-- The `range` loop, which returns at the first rune that fails.
abbrev pub all_allowed : (ℕ → Bool) → Bytes → Bool
all_allowed test [] = true
all_allowed test (c ∷ s) = test c && all_allowed test s

-- `true` is a nil error, `false` is ErrInvalidSessionID.
unfoldable pub validate_session_id : Bytes → Bool
validate_session_id [] = false
validate_session_id (c ∷ s) =
    if contains (c ∷ s) (codes "..") then false else all_allowed is_allowed_id_rune (c ∷ s)

unfoldable pub validate_prefix : Bytes → Bool
validate_prefix [] = false
validate_prefix (c ∷ s) =
    if ltb 64 (length (c ∷ s)) then false else all_allowed is_allowed_prefix_rune (c ∷ s)

-- The prefix and the name.
unfoldable pub extract_prefix : Bytes → Bytes × Bytes
extract_prefix id = elim (last_index_byte id b'/') [
  | none ↦ ([], id)
  | some i ↦ (take i id, drop (suc i) id)
]

all_allowed_iff : (test : ℕ → Bool) (s : Bytes) → (all_allowed test s ≡ true) ↔ AllBytes test s
all_allowed_iff test [] = (λ _. tt, λ _. refl)
all_allowed_iff test (c ∷ s) = ground (arith, all_allowed_iff test s)

-- Text of allowed bytes holds no "..".
contains_dots :
    (s : Bytes) → all_allowed is_allowed_id_rune s ≡ true → contains s (codes "..") ≡ false
unfolding contains is_allowed_id_rune
contains_dots [] h = refl
contains_dots (c ∷ s) h = ground (arith, contains_dots s)

-- An id is valid exactly if it is not empty and each of its bytes is a letter, a digit, '-', '_' or
-- '/'. The test for ".." changes nothing, since no '.' is allowed; and no bound on the length is set.
pub validate_session_id_iff :
    (id : Bytes) → (validate_session_id id ≡ true) ↔ ((id ≢ []) × AllBytes is_allowed_id_rune id)
unfolding validate_session_id
validate_session_id_iff [] = (λ e. cc, λ h. absurd (h.0 refl))
validate_session_id_iff (c ∷ s) =
    ground (arith, contains_dots (c ∷ s), all_allowed_iff is_allowed_id_rune (c ∷ s))

-- Splitting an id at its last '/' loses nothing: prefix, '/' and name give the id back, and the name
-- holds no '/'. Without a '/' the prefix is empty and the name is the id.
extract_prefix_splits :
    (id : Bytes)
    → NoByte b'/' (extract_prefix id).1
      × (((extract_prefix id ≡ ([], id)) × NoByte b'/' id)
          ⊎ (id ≡ (extract_prefix id).0 ++ b'/' ∷ (extract_prefix id).1))
unfolding extract_prefix
extract_prefix_splits id = elim (last_index_byte-cases id b'/') [
  | inl (e, clear) ↦ rw (e, extract_prefix) (clear, inl (refl, clear))
  | inr (i, e, splits, clear) ↦ rw (e, extract_prefix) (clear, inr splits)
]
