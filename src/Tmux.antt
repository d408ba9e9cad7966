-- ===== src/Tmux.antt =====
-- cmd/wmux-tmux/main.go: the tmux shim. What a command does with the client is a plan: it exits at
-- once, or dials and calls. An argument is a byte string.
use wmux.Prelude.{
  ℕ, zero, suc, ◌-◌, if◌then◌else◌, Bool, true, false, List, [], ◌∷◌, ◌++◌, Option, none, some,
  Bytes, bytes_eq, codes, length,
}
use wmux.Prelude.Int.{ℤ, pos}
use wmux.Prelude.Atoi.{atoi, atoi_fails}
use wmux.Prelude.Search.{has_prefix}

-- The calls that a command makes once it has dialled; `list_sessions` prints each session.
pub data Call : Type 0 where
  create : Bytes → Bytes → ℤ → ℤ → Call
  exec : Bytes → Bytes → Call
  attach_print_detach kill info : Bytes → Call
  list_sessions : Call

pub data Plan : Type 0 where
  exits : ℕ → Plan
  calls : Call → Plan

pub record NewSession : Type 0 where
  pub name : Bytes
  pub cols : ℤ
  pub rows : ℤ

abbrev size_or : ℤ → Bytes → ℤ
size_or n v = if atoi_fails v then n else atoi v

-- The loop over the flags of new-session; `none` is `-s` without a name.
unfoldable pub parse_new_session : List Bytes → NewSession → Option NewSession
parse_new_session [] p = some p
parse_new_session (a ∷ []) p = if bytes_eq a (codes "-s") then none else some p
parse_new_session (a ∷ v ∷ rest) p =
    let named = parse_new_session rest (record p { name = v }) in
    let wide = parse_new_session rest (record p { cols = size_or p.cols v }) in
    let high = parse_new_session rest (record p { rows = size_or p.rows v }) in
    let next = parse_new_session (v ∷ rest) p in
    if bytes_eq a (codes "-s")
    then named
    else if bytes_eq a (codes "-x")
    then wide
    else if bytes_eq a (codes "-y")
    then high
    else next

abbrev or_default : Bytes → Bytes → Bytes
or_default [] d = d
or_default (c ∷ s) d = c ∷ s

plan_new_session : Bytes → Option NewSession → Plan
plan_new_session shell none = exits 1
plan_new_session shell (some p) = elim p.name [
  | [] ↦ exits 1
  | c ∷ s ↦ calls (create p.name (or_default shell (codes "/bin/sh")) p.cols p.rows)
]

-- `shell` is the environment variable SHELL.
unfoldable pub cmd_new_session : Bytes → List Bytes → Plan
unfolding parse_new_session plan_new_session
cmd_new_session shell args =
    plan_new_session shell
      (parse_new_session args (record { name = []; cols = pos 80; rows = pos 24 }))

-- The targets before the keys: the last of them, and the keys.
unfoldable pub leading_target : List Bytes → Bytes → Bytes × List Bytes
leading_target [] target = (target, [])
leading_target (a ∷ []) target = (target, a ∷ [])
leading_target (a ∷ v ∷ rest) target =
    let next = leading_target rest v in
    if bytes_eq a (codes "-t") then next else (target, a ∷ v ∷ rest)

-- strings.Join with a space.
unfoldable pub join_spaces : List Bytes → Bytes
join_spaces [] = []
join_spaces (k ∷ []) = k
join_spaces (k ∷ j ∷ ks) = k ++ b' ' ∷ join_spaces (j ∷ ks)

abbrev key_names : List (Bytes × Bytes)
key_names =
    (codes "Enter", 10 ∷ [])
    ∷ (codes "C-c", 3 ∷ [])
    ∷ (codes "C-d", 4 ∷ [])
    ∷ (codes "C-z", 26 ∷ [])
    ∷ (codes "C-l", 12 ∷ [])
    ∷ (codes "Escape", 27 ∷ [])
    ∷ (codes "Tab", 9 ∷ [])
    ∷ (codes "Space", b' ' ∷ [])
    ∷ (codes "BSpace", 127 ∷ [])
    ∷ []

-- The first pair whose name stands at the front.
unfoldable pub key_at : List (Bytes × Bytes) → Bytes → Option (Bytes × Bytes)
key_at [] s = none
key_at ((name, key) ∷ ns) s = if has_prefix s name then some (name, key) else key_at ns s

-- Replace of a strings.Replacer; `skip` bytes belong to the last name.
unfoldable pub replace : List (Bytes × Bytes) → ℕ → Bytes → Bytes
unfolding key_at
replace ns skip [] = []
replace ns (suc skip) (c ∷ s) = replace ns skip s
replace ns zero (c ∷ s) = elim (key_at ns (c ∷ s)) [
  | none ↦ c ∷ replace ns zero s
  | some (name, key) ↦ key ++ replace ns (length name - 1) s
]

unfoldable pub translate_keys : Bytes → Bytes
unfolding replace
translate_keys keys = replace key_names 0 keys

plan_keys : Bytes → Bytes → Plan
unfolding translate_keys
plan_keys target [] = exits 0
plan_keys target (c ∷ keys) = calls (exec target (translate_keys (c ∷ keys)))

plan_send_keys : Bytes × List Bytes → Plan
unfolding plan_keys join_spaces
plan_send_keys ([], keys) = exits 1
plan_send_keys (c ∷ target, keys) = plan_keys (c ∷ target) (join_spaces keys)

unfoldable pub cmd_send_keys : List Bytes → Plan
unfolding leading_target plan_send_keys
cmd_send_keys args = plan_send_keys (leading_target args [])

-- The loop of capture-pane: the last target, and whether `-p` stands outside of one.
unfoldable pub parse_capture : List Bytes → Bytes → Bool → Bytes × Bool
parse_capture [] target print = (target, print)
parse_capture (a ∷ []) target print = (target, if bytes_eq a (codes "-p") then true else print)
parse_capture (a ∷ v ∷ rest) target print =
    let at = parse_capture rest v print in
    let next = parse_capture (v ∷ rest) target (if bytes_eq a (codes "-p") then true else print) in
    if bytes_eq a (codes "-t") then at else next

plan_capture : Bytes × Bool → Plan
plan_capture ([], print) = exits 1
plan_capture (c ∷ target, false) = exits 1
plan_capture (c ∷ target, true) = calls (attach_print_detach (c ∷ target))

unfoldable pub cmd_capture_pane : List Bytes → Plan
unfolding parse_capture plan_capture
cmd_capture_pane args = plan_capture (parse_capture args [] false)

-- The loop of kill-session and has-session: the last target.
unfoldable pub find_target : List Bytes → Bytes → Bytes
find_target [] target = target
find_target (a ∷ []) target = target
find_target (a ∷ v ∷ rest) target =
    let at = find_target rest v in
    let next = find_target (v ∷ rest) target in if bytes_eq a (codes "-t") then at else next

plan_target : (Bytes → Call) → Bytes → Plan
plan_target call [] = exits 1
plan_target call (c ∷ target) = calls (call (c ∷ target))

unfoldable pub cmd_kill_session : List Bytes → Plan
unfolding find_target plan_target
cmd_kill_session args = plan_target kill (find_target args [])

unfoldable pub cmd_has_session : List Bytes → Plan
unfolding find_target plan_target
cmd_has_session args = plan_target info (find_target args [])

unfoldable pub cmd_list_sessions : List Bytes → Plan
cmd_list_sessions args = calls list_sessions

-- `main`, on the arguments behind the name of the program.
unfoldable pub main : Bytes → List Bytes → Plan
unfolding cmd_new_session cmd_send_keys cmd_capture_pane cmd_kill_session cmd_list_sessions
    cmd_has_session
main shell [] = exits 1
main shell (c ∷ args) =
    if bytes_eq c (codes "new-session")
    then cmd_new_session shell args
    else if bytes_eq c (codes "send-keys")
    then cmd_send_keys args
    else if bytes_eq c (codes "capture-pane")
    then cmd_capture_pane args
    else if bytes_eq c (codes "kill-session")
    then cmd_kill_session args
    else if bytes_eq c (codes "list-sessions")
    then cmd_list_sessions args
    else if bytes_eq c (codes "has-session")
    then cmd_has_session args
    else exits 1

-- The exit code, where `dials` is whether the daemon can be reached, and `works` whether the call
-- succeeds.
unfoldable pub exit_code : Bool → (Call → Bool) → Plan → ℕ
exit_code dials works (exits n) = n
exit_code dials works (calls c) = if dials then if works c then 0 else 1 else 1
