-- ===== src/Daemon/Osc/Rows.antt =====
-- The rows that `scanOSC` gives to the markers, and the counter that it leaves.
use wmux.Prelude.{
  ℕ, zero, suc, ◌+◌, ◌-◌, ◌≤◌, ◌≡◌, refl, sym, ap, ◌∙◌, ltb, if◌then◌else◌, Bool, true, false, List,
  [], ◌∷◌, ◌++◌, Option, none, some, Bytes, length, length-drop, take, drop, map, arith, Returns,
  ◌>>=◌, take-append-drop,
}
use wmux.Prelude.Search.{count_byte, count_byte-append}
use wmux.Daemon.Osc.{
  OscType, cwd, notification, shell_ready, osc133, OscResult, Call, changes_cwd, notifies,
  tells_ready, mark, newlines, newline, advance, scan_one, scan_results, add_tail, scan_found,
  scan_osc, parse_osc,
}
use wmux.Daemon.Osc.Places.{Places, parse_osc-Places}

take_nil : (n : ℕ) → take {A = ℕ} n [] ≡ []
take_nil zero = refl
take_nil (suc n) = refl

take-split : (k o : ℕ) (s : Bytes) → k ≤ o → take k s ++ take (o - k) (drop k s) ≡ take o s
take-split zero o s h = ap (λ i. take i s) (omega arith)
take-split (suc k) zero s h = ground arith
take-split (suc k) (suc o) [] h = take_nil (suc o - suc k)
take-split (suc k) (suc o) (c ∷ s) h =
    let e : suc o - suc k ≡ o - k = omega arith in
    rw e (ap (◌∷◌ c) (take-split k o s (omega arith)))

-- The newlines up to one place and those from there to the next.
newlines-slice :
    (k o : ℕ) (s : Bytes)
    → k ≤ o
    → newlines (take k s) + newlines (take (o - k) (drop k s)) ≡ newlines (take o s)
newlines-slice k o s h =
    sym (count_byte-append newline (take k s) (take (o - k) (drop k s)))
    ∙ ap newlines (take-split k o s h)

newlines-rest : (k : ℕ) (s : Bytes) → newlines (take k s) + newlines (drop k s) ≡ newlines s
newlines-rest k s =
    sym (count_byte-append newline (take k s) (drop k s)) ∙ ap newlines (take-append-drop k s)

-- What a sequence at a place of the output makes the daemon do, if `row` is the count of newlines in
-- all that came before it.
abbrev pub call_of : OscType → Bytes → ℕ → Call
call_of cwd v row = changes_cwd v
call_of notification v row = notifies v
call_of shell_ready v row = tells_ready
call_of osc133 v row = mark v row

abbrev pub call_at : Bytes → ℕ → OscResult → Call
call_at output before r = call_of r.type r.value (before + newlines (take r.offset output))

-- The counter has all newlines up to the cursor, which stays within the output.
record Counted (output : Bytes) (before : ℕ) (k : ℕ) (n : Option ℕ) : Type 0 where
  inside : k ≤ length output
  counted : n ≡ some (before + newlines (take k output))

scan_one-Counted :
    (t : OscType) (v output : Bytes) (before cursor offset : ℕ)
    → cursor ≤ offset
    → offset ≤ length output
    → Returns
        (λ r.
          Counted output before r.0 r.1
          × (r.0 ≤ offset)
          × (r.2 ≡ call_of t v (before + newlines (take offset output))))
        (scan_one output cursor (some (before + newlines (take cursor output))) t v offset)
unfolding scan_one advance
scan_one-Counted cwd v output before cursor offset h k =
    (record { inside = omega arith; counted = refl }, h, refl)
scan_one-Counted notification v output before cursor offset h k =
    (record { inside = omega arith; counted = refl }, h, refl)
scan_one-Counted shell_ready v output before cursor offset h k =
    (record { inside = omega arith; counted = refl }, h, refl)
scan_one-Counted osc133 v output before cursor offset h k =
    let ordered : ltb offset cursor ≡ false = ground arith in
    let row : before
          + newlines (take cursor output)
          + newlines (take (offset - cursor) (drop cursor output))
        ≡ before + newlines (take offset output) =
      omega (arith, newlines-slice cursor offset output h) in
    rw ordered (rw row (record { inside = k; counted = refl }, omega arith, refl))

Scanned : Bytes → ℕ → List OscResult → ℕ × Option ℕ × List Call → Type 0
Scanned output before rs r = Counted output before r.0 r.1 × (r.2 ≡ map (call_at output before) rs)

One : Bytes → ℕ → OscResult → ℕ × Option ℕ × Call → Type 0
One output before r x =
    Counted output before x.0 x.1 × (x.0 ≤ r.offset) × (x.2 ≡ call_at output before r)

then_rest :
    (output : Bytes) (before : ℕ) (r : OscResult) (rs : List OscResult) (call : Call) (k : ℕ)
    → call ≡ call_at output before r
    → (m : Option (ℕ × Option ℕ × List Call)) → Returns (Scanned output before rs) m
    → Returns (Scanned output before (r ∷ rs)) (do (k', n', calls) ← m; some (k', n', call ∷ calls))
unfolding Scanned
then_rest output before r rs call k e none h = elim h [ ]
then_rest output before r rs call k e (some (k', n', calls)) (v, es) = (v, rw (e, es))

then_results :
    (output : Bytes) (before : ℕ) (r : OscResult) (rs : List OscResult)
    → (m : Option (ℕ × Option ℕ × Call)) → Returns (One output before r) m
    → ((k : ℕ)
        → k ≤ r.offset
        → k ≤ length output
        → Returns
            (Scanned output before rs)
            (scan_results output k (some (before + newlines (take k output))) rs))
    → Returns (Scanned output before (r ∷ rs)) (do
      (k, n, call) ← m
      (k', n', calls) ← scan_results output k n rs
      some (k', n', call ∷ calls))
unfolding One
then_results output before r rs none h f = elim h [ ]
then_results output before r rs (some (k, n, call)) (v, up, e) f =
    rw v.counted
      (then_rest output before r rs call k e (scan_results output k _ rs) (f k up v.inside))

scan_results-Scanned :
    (rs : List OscResult) (output : Bytes) (before lo cursor : ℕ)
    → Places output lo rs
    → cursor ≤ lo
    → cursor ≤ length output
    → Returns
        (Scanned output before rs)
        (scan_results output cursor (some (before + newlines (take cursor output))) rs)
unfolding scan_results Scanned One
scan_results-Scanned [] output before lo cursor p h k =
    (record { inside = k; counted = refl }, refl)
scan_results-Scanned (r ∷ rs) output before lo cursor (from, inside, at, more) h k =
    then_results output before r rs
      (scan_one output cursor (some (before + newlines (take cursor output))) r.type r.value
        r.offset)
      (scan_one-Counted r.type r.value output before cursor r.offset (omega arith) (omega arith))
      (λ j up fits. scan_results-Scanned rs output before (r.offset + 2) j more (omega arith) fits)

abbrev pub is_empty : List OscResult → Bool
is_empty [] = true
is_empty (r ∷ rs) = false

newlines_empty : (s : Bytes) → length s ≡ 0 → newlines s ≡ 0
unfolding count_byte
newlines_empty [] h = refl
newlines_empty (c ∷ s) h = ground arith

add_tail-all :
    (output : Bytes) (before k : ℕ) (n : Option ℕ)
    → Counted output before k n
    → add_tail output k n ≡ some (before + newlines output)
unfolding add_tail
add_tail-all output before k n v = rw v.counted (
    ground (
      arith,
      v.inside,
      newlines-rest k output,
      newlines_empty (drop k output),
      length-drop k output,
    ))

scan_found-Rows :
    (rs : List OscResult) (output : Bytes) (before : ℕ)
    → Places output 0 rs
    → scan_found output (some before) rs
      ≡ some (
        some (if is_empty rs then before else before + newlines output),
        map (call_at output before) rs,
      )
unfolding scan_found Scanned count_byte
scan_found-Rows [] output before p = refl
scan_found-Rows (r ∷ rs) output before p =
    let start : before + newlines (take 0 output) ≡ before = omega arith in
    go (scan_results output 0 (some before) (r ∷ rs))
      (rw start at (scan_results-Scanned (r ∷ rs) output before 0 0 p (omega arith) (omega arith)))
  where
    go :
        (m : Option (ℕ × Option ℕ × List Call))
        → Returns (Scanned output before (r ∷ rs)) m
        → ◌>>=◌ {B = Option ℕ × List Call} m (λ (k, n, calls). some (add_tail output k n, calls))
          ≡ some (some (before + newlines output), map (call_at output before) (r ∷ rs))
    go none h = elim h [ ]
    go (some (k, n, calls)) (v, e) = rw (e, add_tail-all output before k n v)

-- `scanOSC` never slices backwards. If `ParseOSC` finds a result in the chunk, the counter grows by all
-- newlines of the chunk; every call is made in the order of the results, and the row of a marker is the
-- counter with the newlines before the marker in the chunk. If it finds none, which may also be as it
-- skips each OSC sequence that is there, nothing changes.
pub scan_osc-Rows :
    (parse_url : Bytes → Option Bytes) (output : Bytes) (before : ℕ)
    → scan_osc parse_url output (some before)
      ≡ some (
        some (if is_empty (parse_osc parse_url output) then before else before + newlines output),
        map (call_at output before) (parse_osc parse_url output),
      )
unfolding scan_osc
scan_osc-Rows parse_url output before =
    scan_found-Rows (parse_osc parse_url output) output before (parse_osc-Places parse_url output)
