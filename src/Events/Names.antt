-- ===== src/Events/Names.antt =====
-- internal/platform/event/entity.go: the names of the event types, and their form in JSON.
use wmux.Prelude.{
  ℕ, zero, suc, ◌-◌, ◌≤◌, ◌<◌, ◌≡◌, refl, sym, ap, ◌∙◌, ◌↔◌, leb, ltb, ◌==◌, ◌||◌, ◌&&◌, not,
  if◌then◌else◌, Bool, true, false, List, [], ◌∷◌, ◌++◌, Option, none, some, Bool-cases, inl, inr,
  Bytes, bytes_eq, bytes_eq_iff, codes, length, take, Map, lookup, arith,
}

-- The constants of Type, from 1 on.
abbrev pub session_created : ℕ
session_created = 1

abbrev pub session_attached : ℕ
session_attached = 2

abbrev pub session_detached : ℕ
session_detached = 3

abbrev pub session_exited : ℕ
session_exited = 4

abbrev pub session_idle : ℕ
session_idle = 5

abbrev pub session_killed : ℕ
session_killed = 6

abbrev pub resize : ℕ
resize = 7

abbrev pub cwd_changed : ℕ
cwd_changed = 8

abbrev pub notification : ℕ
notification = 9

abbrev pub output_flood : ℕ
output_flood = 10

abbrev pub recording_limit_reached : ℕ
recording_limit_reached = 11

abbrev pub shell_ready : ℕ
shell_ready = 12

abbrev pub command_prompt_shown : ℕ
command_prompt_shown = 13

abbrev pub command_started : ℕ
command_started = 14

abbrev pub command_finished : ℕ
command_finished = 15

-- The first case of a switch over numbers that fits, or the default.
name_in : List (ℕ × Bytes) → ℕ → Bytes → Bytes
name_in [] t default = default
name_in ((n, s) ∷ cases) t default = if n == t then s else name_in cases t default

-- The cases of `String`.
abbrev pub string_cases : List (ℕ × Bytes)
string_cases =
    (session_created, codes "session.created")
    ∷ (session_attached, codes "session.attached")
    ∷ (session_detached, codes "session.detached")
    ∷ (session_exited, codes "session.exited")
    ∷ (session_idle, codes "session.idle")
    ∷ (session_killed, codes "session.killed")
    ∷ (resize, codes "resize")
    ∷ (cwd_changed, codes "cwd.changed")
    ∷ (notification, codes "notification")
    ∷ (output_flood, codes "output.flood")
    ∷ (recording_limit_reached, codes "recording.limit_reached")
    ∷ (shell_ready, codes "shell.ready")
    ∷ (command_prompt_shown, codes "command.prompt_shown")
    ∷ (command_started, codes "command.started")
    ∷ (command_finished, codes "command.finished")
    ∷ []

unfoldable pub type_string : ℕ → Bytes
unfolding name_in
type_string t = name_in string_cases t (codes "unknown")

-- The cases of `typeFromString`; anything else is not ok.
abbrev pub type_cases : Map ℕ
type_cases =
    (codes "session.created", session_created)
    ∷ (codes "session.attached", session_attached)
    ∷ (codes "session.detached", session_detached)
    ∷ (codes "session.exited", session_exited)
    ∷ (codes "session.idle", session_idle)
    ∷ (codes "session.killed", session_killed)
    ∷ (codes "resize", resize)
    ∷ (codes "cwd.changed", cwd_changed)
    ∷ (codes "notification", notification)
    ∷ (codes "output.flood", output_flood)
    ∷ (codes "recording.limit_reached", recording_limit_reached)
    ∷ (codes "shell.ready", shell_ready)
    ∷ (codes "command.prompt_shown", command_prompt_shown)
    ∷ (codes "command.started", command_started)
    ∷ (codes "command.finished", command_finished)
    ∷ []

unfoldable pub type_from_string : Bytes → Option ℕ
type_from_string s = lookup s type_cases

abbrev quote : ℕ
quote = b'"'

-- `MarshalJSON`; it never fails.
unfoldable pub marshal : ℕ → Bytes
unfolding type_string
marshal t = quote ∷ (type_string t ++ quote ∷ [])

-- The last byte of `data`, 0 for none.
abbrev last_byte : Bytes → ℕ
last_byte [] = 0
last_byte (c ∷ []) = c
last_byte (_ ∷ c ∷ s) = last_byte (c ∷ s)

-- `UnmarshalJSON`; `none` is an error.
unfoldable pub unmarshal : Bytes → Option ℕ
unfolding type_from_string
unmarshal [] = none
unmarshal (c ∷ s) =
    if ltb (length (c ∷ s)) 2 || not (c == quote) || not (last_byte (c ∷ s) == quote)
    then none
    else type_from_string (take (length s - 1) s)

-- Every entry of the second switch has the name that the first gives to its number.
agree : Map ℕ → Bool
agree [] = true
agree ((s, t) ∷ m) = bytes_eq (type_string t) s && ltb 0 t && leb t 15 && agree m

types_agree : agree type_cases ≡ true
unfolding agree type_string bytes_eq
types_agree = refl

lookup-agree :
    (m : Map ℕ) (s : Bytes) (t : ℕ)
    → agree m ≡ true
    → lookup s m ≡ some t
    → (type_string t ≡ s) × (0 < t) × (t ≤ 15)
unfolding agree lookup
lookup-agree [] s t a e = ground arith
lookup-agree ((s', t') ∷ m) s t a e =
    ground (arith, bytes_eq_iff s' s, bytes_eq_iff (type_string t') s', lookup-agree m s t)

-- A check of every number from 1 to `n`.
all_to : ℕ → (ℕ → Bool) → Bool
all_to zero f = true
all_to (suc n) f = f (suc n) && all_to n f

all_to_lem : (n : ℕ) (f : ℕ → Bool) (t : ℕ) → all_to n f ≡ true → 0 < t → t ≤ n → f t ≡ true
unfolding all_to
all_to_lem zero f t h low high = ground arith
all_to_lem (suc n) f t h low high = elim (Bool-cases (suc n == t)) [
  | inl same ↦ let e : suc n ≡ t = ground arith in ground arith
  | inr other ↦ all_to_lem n f t (ground arith) low (ground arith)
]

is_number : Option ℕ → ℕ → Bool
is_number none t = false
is_number (some u) t = u == t

is_number_lem : (m : Option ℕ) (t : ℕ) → is_number m t ≡ true → m ≡ some t
unfolding is_number
is_number_lem none t h = cc
is_number_lem (some u) t h = ground arith

all_back : all_to 15 (λ t. is_number (unmarshal (marshal t)) t) ≡ true
unfolding all_to is_number unmarshal marshal lookup bytes_eq
all_back = refl

last_byte-splits :
    (c : ℕ) (s : Bytes) (q : ℕ) → last_byte (c ∷ s) ≡ q → c ∷ s ≡ take (length s) (c ∷ s) ++ q ∷ []
last_byte-splits c [] q e = rw e refl
last_byte-splits c (d ∷ s) q e = ap (◌∷◌ c) (last_byte-splits d s q e)

marshal-name : (t : ℕ) (s : Bytes) → type_string t ≡ s → marshal t ≡ quote ∷ (s ++ quote ∷ [])
unfolding marshal
marshal-name t s e = ap (λ x. quote ∷ (x ++ quote ∷ [])) e

-- What `unmarshal` has tested of text that it accepts.
accepted :
    (c d : ℕ) (s : Bytes) (t : ℕ)
    → unmarshal (c ∷ d ∷ s) ≡ some t
    → (c ≡ quote)
      × (last_byte (d ∷ s) ≡ quote)
      × (lookup (take (length s) (d ∷ s)) type_cases ≡ some t)
unfolding unmarshal
accepted c d s t e =
    let inner : suc (length s) - 1 ≡ length s = omega arith in ground (arith, rw inner at e)

unmarshal-accepts :
    (b : Bytes) (t : ℕ) → unmarshal b ≡ some t → (marshal t ≡ b) × (0 < t) × (t ≤ 15)
unfolding unmarshal
unmarshal-accepts [] t e = ground arith
unmarshal-accepts (c ∷ []) t e = ground arith
unmarshal-accepts (c ∷ d ∷ s) t e =
    let (first, final, found) = accepted c d s t e in
    let (named, low, high) =
      lookup-agree type_cases (take (length s) (d ∷ s)) t types_agree found in
    (
      marshal-name t _ named
          ∙ ap (λ x. quote ∷ x) (sym (last_byte-splits d s quote final))
          ∙ ap (λ x. x ∷ d ∷ s) (sym first),
      low,
      high,
    )

-- Text is accepted as a type exactly if it is the JSON form of that type and the type is one of the
-- fifteen constants; so no constant is lost or confused with another, and 0 is never accepted.
pub unmarshal-marshal_iff :
    (b : Bytes) (t : ℕ) → (unmarshal b ≡ some t) ↔ ((marshal t ≡ b) × (0 < t) × (t ≤ 15))
unmarshal-marshal_iff b t = (unmarshal-accepts b t, back)
  where
    back : (marshal t ≡ b) × (0 < t) × (t ≤ 15) → unmarshal b ≡ some t
    back (e, low, high) =
        ap unmarshal (sym e)
        ∙ is_number_lem _ t
            (all_to_lem 15 (λ u. is_number (unmarshal (marshal u)) u) t all_back low high)
