-- ===== src/Daemon/Osc/Places.antt =====
-- Where `ParseOSC` finds its sequences, and that it reaches the end.
use wmux.Prelude.{
  ℕ, zero, suc, ◌+◌, ◌≤◌, ◌<◌, ◌≡◌, subst, sym, refl, ap, ◌∙◌, if◌then◌else◌, Bool, true, false,
  List, [], ◌∷◌, ◌++◌, Option, none, some, Option-cases, inl, inr, Bytes, bytes_eq, codes, length,
  take, drop, drop-drop, length-drop, arith,
}
use wmux.Prelude.Search.{has_prefix, index, index_byte}
use wmux.Prelude.Search.Found.{has_prefix-index, index-bound}
use wmux.Daemon.Osc.{
  OscType, notification, shell_ready, osc133, OscResult, result, split_n, value_99, value_777,
  is_shell_ready, introducer, terminator_st, pick_osc_end, cwd_result, by_number, interpret,
  parse_osc_loop, parse_osc,
}

-- The results stand in order, from `lo` on, each where an introducer begins, and they do not overlap.
abbrev pub Places : Bytes → ℕ → List OscResult → Type 0
Places output lo [] = Unit
Places output lo (r ∷ rs) =
    (lo ≤ r.offset)
    × (r.offset + 2 ≤ length output)
    × (has_prefix (drop r.offset output) introducer ≡ true)
    × Places output (r.offset + 2) rs

-- At most one result, and at this place.
data IsAt (offset : ℕ) : List OscResult → Type 0 where
  nowhere : IsAt offset []
  there : {r : OscResult} → r.offset ≡ offset → IsAt offset (r ∷ [])

index-nil : index [] introducer ≡ none
unfolding index has_prefix
index-nil = refl

result-IsAt : (t : OscType) (v : Bytes) (offset : ℕ) → IsAt offset (result t v offset)
result-IsAt t v offset = there refl

choose-IsAt :
    (b : Bool) (offset : ℕ) (xs ys : List OscResult)
    → IsAt offset xs
    → IsAt offset ys
    → IsAt offset (if b then xs else ys)
choose-IsAt true offset xs ys h k = h
choose-IsAt false offset xs ys h k = k

cwd_result-IsAt : (path : Option Bytes) (offset : ℕ) → IsAt offset (cwd_result path offset)
unfolding cwd_result
cwd_result-IsAt (some (c ∷ path)) offset = there refl
cwd_result-IsAt (some []) offset = nowhere
cwd_result-IsAt none offset = nowhere

Places-weaken :
    (output : Bytes) (lo hi : ℕ) (rs : List OscResult)
    → lo ≤ hi
    → Places output hi rs
    → Places output lo rs
Places-weaken output lo hi [] h p = tt
Places-weaken output lo hi (r ∷ rs) h (from, inside, found, more) =
    (omega arith, inside, found, more)

IsAt-Places :
    (output : Bytes) (lo offset : ℕ) (rs more : List OscResult)
    → IsAt offset rs
    → lo ≤ offset
    → offset + 2 ≤ length output
    → has_prefix (drop offset output) introducer ≡ true
    → Places output (offset + 2) more
    → Places output lo (rs ++ more)
IsAt-Places output lo offset _ more nowhere from inside found p =
    Places-weaken output lo (offset + 2) more (omega arith) p
IsAt-Places output lo offset _ more (there e) from inside found p = rw e (from, inside, found, p)

module _ (parse_url : Bytes → Option Bytes) where
  by_number-IsAt : (num v : Bytes) (offset : ℕ) → IsAt offset (by_number parse_url num v offset)
  unfolding by_number
  by_number-IsAt num v offset =
      choose-IsAt (bytes_eq num (codes "7")) offset _ _ (cwd_result-IsAt (parse_url v) offset) (
        choose-IsAt (bytes_eq num (codes "9")) offset _ _ (result-IsAt notification v offset) (
          choose-IsAt (bytes_eq num (codes "99")) offset _ _
            (result-IsAt notification (value_99 v (split_n 2 v)) offset)
            (choose-IsAt (bytes_eq num (codes "133")) offset _ _ (result-IsAt osc133 v offset) (
              choose-IsAt (bytes_eq num (codes "777")) offset _ _
                (choose-IsAt (is_shell_ready (split_n 3 v)) offset _ _
                  (result-IsAt shell_ready (codes "shell-ready") offset)
                  (result-IsAt notification (value_777 v (split_n 3 v)) offset))
                nowhere))))

  interpret-IsAt : (body : Bytes) (offset : ℕ) → IsAt offset (interpret parse_url body offset)
  unfolding interpret
  interpret-IsAt body offset = elim (Option-cases (index_byte body b';')) [
    | inl e ↦ rw (e, interpret) nowhere
    | inr (i, e) ↦ rw (e, interpret) (by_number-IsAt (take i body) (drop (suc i) body) offset)
  ]

  parse_osc_loop-Places :
      (fuel cursor lo : ℕ) (output : Bytes)
      → lo ≤ cursor
      → Places output lo (parse_osc_loop parse_url fuel cursor (drop cursor output))
  unfolding parse_osc_loop
  parse_osc_loop-Places zero cursor lo output h = tt
  parse_osc_loop-Places (suc fuel) cursor lo output h =
      elim (Option-cases (index (drop cursor output) introducer)) [
        | inl e ↦ rw (e, parse_osc_loop) tt
        | inr (idx, e) ↦
            rw (e, parse_osc_loop)
              (found idx e (λ k from lt. parse_osc_loop-Places fuel k from output lt)
                (pick_osc_end (index (after idx) terminator_st) (index_byte (after idx) 7)))
      ]
    where
      after : ℕ → Bytes
      after idx = drop (idx + 2) (drop cursor output)

      found :
          (idx : ℕ)
          → index (drop cursor output) introducer ≡ some idx
          → ((k from : ℕ)
              → from ≤ k
              → Places output from (parse_osc_loop parse_url fuel k (drop k output)))
          → (end : Option ℕ)
          → Places output lo (elim end [
            | none ↦ []
            | some n ↦
                interpret parse_url (take n (after idx)) (cursor + idx)
                ++ parse_osc_loop parse_url fuel
                    (cursor + idx + 2 + suc n)
                    (drop (suc n) (after idx))
          ])
      found idx e ih none = tt
      found idx e ih (some n) =
          let e1 : drop (suc n) (after idx) ≡ drop (cursor + idx + 2 + suc n) output =
            drop-drop (suc n) (idx + 2) (drop cursor output)
            ∙ drop-drop (idx + 2 + suc n) cursor output
            ∙ ap (λ k. drop k output) (omega arith) in
          IsAt-Places output lo (cursor + idx) _ _
            (interpret-IsAt (take n (after idx)) (cursor + idx)) (omega arith)
            (omega
              (arith, index-bound (drop cursor output) introducer idx e, length-drop cursor output))
            (rw (drop-drop idx cursor output) at
              (has_prefix-index (drop cursor output) introducer idx e))
            (rw e1 (ih (cursor + idx + 2 + suc n) (cursor + idx + 2) (omega arith)))

  -- Every result of `ParseOSC` stands where an ESC ] begins, inside the output, and behind the one
  -- before it.
  pub parse_osc-Places : (output : Bytes) → Places output 0 (parse_osc parse_url output)
  unfolding parse_osc
  parse_osc-Places output = parse_osc_loop-Places (length output) 0 0 output (omega arith)

  parse_osc_loop-fuel :
      (f g cursor : ℕ) (rest : Bytes)
      → length rest ≤ f
      → length rest ≤ g
      → parse_osc_loop parse_url f cursor rest ≡ parse_osc_loop parse_url g cursor rest
  unfolding parse_osc_loop
  parse_osc_loop-fuel zero zero cursor rest h k = refl
  parse_osc_loop-fuel zero (suc g) cursor [] h k = rw (index-nil, parse_osc_loop) refl
  parse_osc_loop-fuel zero (suc g) cursor (c ∷ s) h k = ground arith
  parse_osc_loop-fuel (suc f) zero cursor [] h k = rw (index-nil, parse_osc_loop) refl
  parse_osc_loop-fuel (suc f) zero cursor (c ∷ s) h k = ground arith
  parse_osc_loop-fuel (suc f) (suc g) cursor rest h k =
      elim (Option-cases (index rest introducer)) [
        | inl e ↦ rw (e, parse_osc_loop) refl
        | inr (idx, e) ↦
            rw (e, parse_osc_loop)
              (found idx (index-bound rest introducer idx e)
                (λ l r a b. parse_osc_loop-fuel f g l r a b)
                (pick_osc_end (index (drop (idx + 2) rest) terminator_st)
                  (index_byte (drop (idx + 2) rest) 7)))
      ]
    where
      found :
          (idx : ℕ)
          → idx + 2 ≤ length rest
          → ((l : ℕ) (r : Bytes)
              → length r ≤ f
              → length r ≤ g
              → parse_osc_loop parse_url f l r ≡ parse_osc_loop parse_url g l r)
          → (end : Option ℕ)
          → elim end [
            | none ↦ []
            | some n ↦
                interpret parse_url (take n (drop (idx + 2) rest)) (cursor + idx)
                ++ parse_osc_loop parse_url f
                    (cursor + idx + 2 + suc n)
                    (drop (suc n) (drop (idx + 2) rest))
          ]
            ≡ elim end [
              | none ↦ []
              | some n ↦
                  interpret parse_url (take n (drop (idx + 2) rest)) (cursor + idx)
                  ++ parse_osc_loop parse_url g
                      (cursor + idx + 2 + suc n)
                      (drop (suc n) (drop (idx + 2) rest))
            ]
      found idx b ih none = refl
      found idx b ih (some n) =
          let shorter : length (drop (suc n) (drop (idx + 2) rest)) < length rest =
            omega (arith, length-drop (suc n) (drop (idx + 2) rest), length-drop (idx + 2) rest) in
          ap (λ x. interpret parse_url (take n (drop (idx + 2) rest)) (cursor + idx) ++ x)
            (ih (cursor + idx + 2 + suc n) (drop (suc n) (drop (idx + 2) rest)) (omega arith)
              (omega arith))

  -- The loop of `ParseOSC` ends by itself: with any fuel of at least the length of the output it
  -- gives the same results, each of which stands where an ESC ] begins, inside the output, and behind
  -- the one before it.
  pub parse_osc_loop-ends :
      (fuel : ℕ) (output : Bytes)
      → length output ≤ fuel
      → (parse_osc_loop parse_url fuel 0 output ≡ parse_osc parse_url output)
        × Places output 0 (parse_osc_loop parse_url fuel 0 output)
  unfolding parse_osc
  parse_osc_loop-ends fuel output h =
      let same = parse_osc_loop-fuel fuel (length output) 0 output h (omega arith) in
      (same, subst (Places output 0) (sym same) (parse_osc-Places output))
