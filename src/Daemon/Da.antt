-- ===== src/Daemon/Da.antt =====
-- internal/daemon/da.go, and scanDA of internal/daemon/service.go: requests for device attributes in
-- the output, which the daemon answers for a session without clients.
use wmux.Prelude.{
  ℕ, zero, suc, ◌≤◌, ◌<◌, ◌≡◌, refl, sym, ap, ◌∙◌, subst, map, ltb, ◌||◌, if◌then◌else◌, Bool, true,
  false, Bool-cases, inl, inr, List, [], ◌∷◌, ◌++◌, Option, none, some, Bytes, codes, length, take,
  drop, length-drop, arith,
}
use wmux.Prelude.Search.{has_prefix, index_byte, NoByte}
use wmux.Prelude.Search.Found.{has_prefix-splits, index_byte-cases, index_byte-bound}

pub data DaType : Type 0 where
  da1 da2 : DaType

abbrev esc : ℕ
esc = 27

abbrev pub da2_seq0 : Bytes
da2_seq0 = esc ∷ codes "[>0c"

abbrev pub da2_seq : Bytes
da2_seq = esc ∷ codes "[>c"

abbrev pub da1_seq0 : Bytes
da1_seq0 = esc ∷ codes "[0c"

abbrev pub da1_seq : Bytes
da1_seq = esc ∷ codes "[c"

-- The switch: the type, and how far to go on.
unfoldable pub request_at : Bytes → Option DaType × ℕ
request_at tail =
    if has_prefix tail da2_seq0
    then (some da2, length da2_seq0)
    else if has_prefix tail da2_seq
    then (some da2, length da2_seq)
    else if has_prefix tail da1_seq0
    then (some da1, length da1_seq0)
    else if has_prefix tail da1_seq
    then (some da1, length da1_seq)
    else (none, 1)

abbrev add : Option DaType → List DaType → List DaType
add none ts = ts
add (some t) ts = t ∷ ts

-- The loop, with `data[i:]` as its argument.
unfoldable pub parse_da_loop : ℕ → Bytes → List DaType
unfolding request_at
parse_da_loop zero rest = []
parse_da_loop (suc fuel) rest = elim (index_byte rest esc) [
  | none ↦ []
  | some idx ↦
      let tail = drop idx rest in
      let (found, width) = request_at tail in add found (parse_da_loop fuel (drop width tail))
]

unfoldable pub parse_da : Bytes → List DaType
unfolding parse_da_loop
parse_da output = parse_da_loop (length output) output

-- The requests that begin at any place of the output, found by looking at each place.
abbrev pub asks : DaType → Bytes → Bool
asks da1 s = has_prefix s da1_seq || has_prefix s da1_seq0
asks da2 s = has_prefix s da2_seq || has_prefix s da2_seq0

abbrev pub requests : Bytes → List DaType
requests [] = []
requests (c ∷ s) =
    (if asks da2 (c ∷ s) then da2 ∷ [] else [])
    ++ (if asks da1 (c ∷ s) then da1 ∷ [] else [])
    ++ requests s

requests-skip : (s rest : Bytes) → NoByte esc s → requests (s ++ rest) ≡ requests rest
unfolding has_prefix
requests-skip [] rest h = refl
requests-skip (c ∷ s) rest (h, hs) = ground (arith, requests-skip s rest hs)

requests-none : (s : Bytes) → NoByte esc s → requests s ≡ []
unfolding has_prefix
requests-none [] h = refl
requests-none (c ∷ s) (h, hs) = ground (arith, requests-none s hs)

Advances : Bytes → Type 0
Advances tail = requests tail ≡ add (request_at tail).0 (requests (drop (request_at tail).1 tail))

-- After each of the four sequences no request begins before its end.
after_sequences :
    (r : Bytes)
    → Advances (da2_seq0 ++ r)
      × Advances (da2_seq ++ r)
      × Advances (da1_seq0 ++ r)
      × Advances (da1_seq ++ r)
unfolding Advances request_at has_prefix
after_sequences r = (refl, refl, refl, refl)

hit :
    (tail p : Bytes)
    → has_prefix tail p ≡ true
    → Advances (p ++ drop (length p) tail)
    → Advances tail
hit tail p h = subst Advances (sym (has_prefix-splits tail p h))

missed :
    (c : ℕ) (s : Bytes)
    → has_prefix (c ∷ s) da2_seq0 ≡ false
    → has_prefix (c ∷ s) da2_seq ≡ false
    → has_prefix (c ∷ s) da1_seq0 ≡ false
    → has_prefix (c ∷ s) da1_seq ≡ false
    → Advances (c ∷ s)
unfolding Advances request_at
missed c s h0 h1 h2 h3 = rw (h0, h1, h2, h3) refl

advance : (c : ℕ) (s : Bytes) → Advances (c ∷ s)
advance c s = elim (Bool-cases (has_prefix (c ∷ s) da2_seq0)) [
  | inl h ↦ hit (c ∷ s) da2_seq0 h (after_sequences _).0
  | inr h0 ↦ elim (Bool-cases (has_prefix (c ∷ s) da2_seq)) [
    | inl h ↦ hit (c ∷ s) da2_seq h (after_sequences _).1
    | inr h1 ↦ elim (Bool-cases (has_prefix (c ∷ s) da1_seq0)) [
      | inl h ↦ hit (c ∷ s) da1_seq0 h (after_sequences _).2
      | inr h2 ↦ elim (Bool-cases (has_prefix (c ∷ s) da1_seq)) [
        | inl h ↦ hit (c ∷ s) da1_seq h (after_sequences _).3
        | inr h3 ↦ missed c s h0 h1 h2 h3
      ]
    ]
  ]
]

request_at-width : (tail : Bytes) → 0 < (request_at tail).1
unfolding request_at
request_at-width tail = ground arith

parse_da_loop-requests :
    (fuel : ℕ) (rest : Bytes) → length rest ≤ fuel → parse_da_loop fuel rest ≡ requests rest
unfolding parse_da_loop Advances
parse_da_loop-requests zero [] h = refl
parse_da_loop-requests zero (c ∷ s) h = ground arith
parse_da_loop-requests (suc fuel) rest h = elim (index_byte-cases rest esc) [
  | inl (e, clear) ↦ rw (e, parse_da_loop) (sym (requests-none rest clear))
  | inr (i, e, splits, at, clear) ↦
      let tail = drop i rest in
      let width = (request_at tail).1 in
      let adv : Advances tail = subst Advances (sym at) (advance esc (drop (suc i) rest)) in
      let fits : length (drop width tail) ≤ fuel = omega (
        arith,
        length-drop width tail,
        length-drop i rest,
        request_at-width tail,
        index_byte-bound rest esc i e,
      ) in
      rw (e, parse_da_loop)
        (ap (add (request_at tail).0) (parse_da_loop-requests fuel (drop width tail) fits)
          ∙ sym adv
          ∙ sym (requests-skip (take i rest) tail clear)
          ∙ ap requests (sym splits))
]

-- `ParseDA` finds exactly the requests that begin somewhere in the output, each once and in order,
-- and it reaches the end of the output.
pub parse_da-requests : (output : Bytes) → parse_da output ≡ requests output
unfolding parse_da
parse_da-requests output = parse_da_loop-requests (length output) output (omega arith)

abbrev pub response : DaType → Bytes
response da1 = esc ∷ codes "[?62;22c"
response da2 = esc ∷ codes "[>1;0;0c"

-- `scanDA`: what is written to the session's input, in order, where `clients` is the number of
-- attached clients. (An error of `WriteInput` is only logged.)
unfoldable pub scan_da : ℕ → Bytes → List Bytes
unfolding parse_da
scan_da clients output = if ltb 0 clients then [] else map response (parse_da output)
