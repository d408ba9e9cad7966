-- ===== src/Daemon/Osc.antt =====
-- internal/daemon/osc.go, and scanOSC and parseOSC133Value of internal/daemon/service.go: the OSC
-- sequences in a chunk of output, what each makes the daemon do, and the count of newlines.
-- `parse_url` is url.Parse: the path of the URL, or `none` for an error.
pub mod Places
pub mod Rows
pub mod Total
use wmux.Prelude.{
  ℕ, zero, suc, ◌+◌, ◌-◌, ltb, ◌==◌, ◌&&◌, if◌then◌else◌, Bool, true, false, List, [], ◌∷◌, ◌++◌,
  Option, none, some, Bytes, bytes_eq, codes, length, take, drop, ◌>>=◌,
}
use wmux.Prelude.Int.{ℤ, pos}
use wmux.Prelude.Atoi.{atoi}
use wmux.Prelude.Search.{index, index_byte, count_byte}

pub data OscType : Type 0 where
  cwd notification shell_ready osc133 : OscType

pub record OscResult : Type 0 where
  pub type : OscType
  pub value : Bytes
  pub offset : ℕ

abbrev pub introducer : Bytes
introducer = 27 ∷ b']' ∷ []

abbrev pub terminator_st : Bytes
terminator_st = 27 ∷ b'\\' ∷ []

-- `none` is -1.
unfoldable pub pick_osc_end : Option ℕ → Option ℕ → Option ℕ
pick_osc_end (some st) (some bel) = if ltb st bel then some st else some bel
pick_osc_end (some st) none = some st
pick_osc_end none (some bel) = some bel
pick_osc_end none none = none

-- strings.SplitN at ';'.
split_n : ℕ → Bytes → List Bytes
split_n zero s = []
split_n (suc zero) s = s ∷ []
split_n (suc (suc n)) s = elim (index_byte s b';') [
  | none ↦ s ∷ []
  | some i ↦ take i s ∷ split_n (suc n) (drop (suc i) s)
]

value_99 : Bytes → List Bytes → Bytes
value_99 v (_ ∷ w ∷ []) = w
value_99 v _ = v

is_shell_ready : List Bytes → Bool
is_shell_ready (a ∷ b ∷ _) = bytes_eq a (codes "wmux") && bytes_eq b (codes "shell-ready")
is_shell_ready _ = false

value_777 : Bytes → List Bytes → Bytes
value_777 v (_ ∷ _ ∷ w ∷ []) = w
value_777 v (_ ∷ w ∷ []) = w
value_777 v _ = v

abbrev result : OscType → Bytes → ℕ → List OscResult
result t v offset = record { type = t; value = v; offset = offset } ∷ []

-- A path that is not empty.
cwd_result : Option Bytes → ℕ → List OscResult
cwd_result (some (c ∷ path)) offset = result cwd (c ∷ path) offset
cwd_result _ offset = []

module _ (parse_url : Bytes → Option Bytes) where
  -- The switch over the number.
  unfoldable pub by_number : Bytes → Bytes → ℕ → List OscResult
  unfolding split_n value_99 value_777 is_shell_ready cwd_result
  by_number num v offset =
      if bytes_eq num (codes "7")
      then cwd_result (parse_url v) offset
      else if bytes_eq num (codes "9")
      then result notification v offset
      else if bytes_eq num (codes "99")
      then result notification (value_99 v (split_n 2 v)) offset
      else if bytes_eq num (codes "133")
      then result osc133 v offset
      else if bytes_eq num (codes "777")
      then if is_shell_ready (split_n 3 v)
        then result shell_ready (codes "shell-ready") offset
        else result notification (value_777 v (split_n 3 v)) offset
      else []

  unfoldable pub interpret : Bytes → ℕ → List OscResult
  unfolding by_number
  interpret body offset = elim (index_byte body b';') [
    | none ↦ []
    | some semicolon ↦ by_number (take semicolon body) (drop (suc semicolon) body) offset
  ]

  -- The loop, with `data[cursor:]` as its last argument.
  unfoldable pub parse_osc_loop : ℕ → ℕ → Bytes → List OscResult
  unfolding interpret pick_osc_end
  parse_osc_loop zero cursor rest = []
  parse_osc_loop (suc fuel) cursor rest = elim (index rest introducer) [
    | none ↦ []
    | some idx ↦
        let after = drop (idx + 2) rest in
        elim (pick_osc_end (index after terminator_st) (index_byte after 7)) [
          | none ↦ []
          | some end ↦
              interpret (take end after) (cursor + idx)
              ++ parse_osc_loop fuel (cursor + idx + 2 + suc end) (drop (suc end) after)
        ]
  ]

  unfoldable pub parse_osc : Bytes → List OscResult
  unfolding parse_osc_loop
  parse_osc output = parse_osc_loop (length output) 0 output

-- `parseOSC133Value`.
until_semicolon : Bytes → Bytes
until_semicolon s = elim (index_byte s b';') [ none ↦ s | some i ↦ take i s ]

unfoldable pub parse_osc133_value : Bytes → ℕ × ℤ
unfolding until_semicolon atoi
parse_osc133_value [] = (0, pos 0)
parse_osc133_value (c ∷ s) =
    if c == b'D' && ltb 2 (length (c ∷ s))
    then (c, atoi (until_semicolon (drop 2 (c ∷ s))))
    else (c, pos 0)

-- The calls that `scanOSC` makes for the session: MetaSet and a CwdChanged event, a Notification or
-- ShellReady event, or HandleOSC of the command service with the code, the exit code and the row.
pub data Call : Type 0 where
  changes_cwd notifies : Bytes → Call
  tells_ready : Call
  marks : ℕ → ℤ → ℕ → Call

abbrev pub mark : Bytes → ℕ → Call
mark v row = let (code, exit) = parse_osc133_value v in marks code exit row

abbrev newline : ℕ
newline = 10

-- `bytes.Count(data, "\n")`.
abbrev pub newlines : Bytes → ℕ
newlines = count_byte newline

-- The case of OSC 133: the cursor, the counter and the row. `none` is the panic of a slice that ends
-- before it begins; without a counter nothing is sliced.
unfoldable pub advance : Bytes → ℕ → Option ℕ → ℕ → Option (ℕ × Option ℕ × ℕ)
advance output cursor none offset = some (cursor, none, 0)
advance output cursor (some n) offset =
    if ltb offset cursor
    then none
    else let m = n + newlines (take (offset - cursor) (drop cursor output)) in
      some (offset, some m, m)

unfoldable pub scan_one : Bytes → ℕ → Option ℕ → OscType → Bytes → ℕ → Option (ℕ × Option ℕ × Call)
unfolding advance parse_osc133_value
scan_one output cursor counter cwd v offset = some (cursor, counter, changes_cwd v)
scan_one output cursor counter notification v offset = some (cursor, counter, notifies v)
scan_one output cursor counter shell_ready v offset = some (cursor, counter, tells_ready)
scan_one output cursor counter osc133 v offset = do
  (k, n, row) ← advance output cursor counter offset
  some (k, n, mark v row)

unfoldable pub scan_results :
    Bytes → ℕ → Option ℕ → List OscResult → Option (ℕ × Option ℕ × List Call)
unfolding scan_one
scan_results output cursor counter [] = some (cursor, counter, [])
scan_results output cursor counter (r ∷ rs) = do
  (k, n, call) ← scan_one output cursor counter r.type r.value r.offset
  (k', n', calls) ← scan_results output k n rs
  some (k', n', call ∷ calls)

-- The tail: the newlines behind the last marker.
add_tail : Bytes → ℕ → Option ℕ → Option ℕ
add_tail output cursor none = none
add_tail output cursor (some n) =
    if ltb cursor (length output) then some (n + newlines (drop cursor output)) else some n

scan_found : Bytes → Option ℕ → List OscResult → Option (Option ℕ × List Call)
unfolding scan_results add_tail
scan_found output counter [] = some (counter, [])
scan_found output counter (r ∷ rs) = do
  (k, n, calls) ← scan_results output 0 counter (r ∷ rs)
  some (add_tail output k n, calls)

-- `scanOSC`: the counter of the session, if it has one, and the calls in order.
unfoldable pub scan_osc : (Bytes → Option Bytes) → Bytes → Option ℕ → Option (Option ℕ × List Call)
unfolding parse_osc scan_found
scan_osc parse_url output counter = scan_found output counter (parse_osc parse_url output)
