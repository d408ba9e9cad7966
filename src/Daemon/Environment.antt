-- ===== src/Daemon/Environment.antt =====
-- internal/daemon/environment.go and handleEnvForward of service.go. A directory is a map from the names
-- of its entries, so the names of variables have no slash. What the system does on a look at a path, a removal, a link and a write is an argument.
use wmux.Prelude.{
  not, if◌then◌else◌, Bool, List, [], ◌∷◌, ◌++◌, Option, none, some, Bytes, codes, Map, map, lookup,
  insert, delete,
}
use wmux.Platform.SessionDirs.{WriteResult, writes, cuts}

pub data Node : Type 0 where
  symlink : Bytes → Node
  file : Bytes → Node

pub data Error : Type 0 where
  stat_failed symlink_failed write_failed : Error

-- `exists` is whether os.Stat finds a path, `removes` whether an entry can be removed, `links` whether
-- a link can be made, and `wrote` what the write of the file does.
pub record World : Type 0 where
  pub exists : Bytes → Bool
  pub removes : Bytes → Bool
  pub links : Bytes → Bool
  pub wrote : WriteResult

-- A link is not made over an entry that is there.
link : World → Bytes → Bytes → Map Node → Map Node × Option Error
link w name target d = elim (lookup name d) [
  | some n ↦ (d, some symlink_failed)
  | none ↦ if w.links name then (insert name (symlink target) d, none) else (d, some symlink_failed)
]

unfoldable pub forward_env : World → Bytes → Bytes → Map Node → Map Node × Option Error
unfolding link
forward_env w var_name value d =
    if not (w.exists value)
    then (d, some stat_failed)
    else link w var_name value (if w.removes var_name then delete var_name d else d)

line_of : Map Bytes → Bytes → Bytes
line_of env k = elim (lookup k env) [ none ↦ k ++ codes "=" | some v ↦ k ++ codes "=" ++ v ]

-- `strings.Join(lines, "\n")`.
join_lines : List Bytes → Bytes
join_lines [] = []
join_lines (l ∷ []) = l
join_lines (l ∷ m ∷ ls) = l ++ 10 ∷ join_lines (m ∷ ls)

-- The content of the file; `sort` is sort.Strings.
unfoldable pub env_content : (List Bytes → List Bytes) → Map Bytes → Bytes
unfolding line_of join_lines
env_content sort env = join_lines (map (line_of env) (sort (map (λ e. e.0) env))) ++ 10 ∷ []

-- A write through a link changes what it leads to, and not the directory.
write_at : Bytes → Bytes → Map Node → Map Node
write_at name text d = elim (lookup name d) [
  | some (symlink target) ↦ d
  | some (file old) ↦ insert name (file text) d
  | none ↦ insert name (file text) d
]

unfoldable pub write_env_file :
    (List Bytes → List Bytes) → World → Map Bytes → Map Node → Map Node × Option Error
unfolding env_content write_at
write_env_file sort w env d = elim w.wrote [
  | writes ↦ (write_at (codes "env") (env_content sort env) d, none)
  | cuts none ↦ (d, some write_failed)
  | cuts (some part) ↦ (write_at (codes "env") part d, some write_failed)
]

-- The loop over the variables: the directory, and `nonPathEnv`.
unfoldable pub forward_each : World → Map Bytes → Map Node → Map Node × Map Bytes
unfolding forward_env
forward_each w [] d = (d, [])
forward_each w ((k, v) ∷ env) d =
    let (after, rest) = forward_each w env (if w.exists v then (forward_env w k v d).0 else d) in
    (after, if w.exists v then rest else (k, v) ∷ rest)

pub data Reply : Type 0 where
  invalid_request done : Reply

-- The request is the variables, in the order in which the range finds them, and the directory that of
-- its session; there is none without a data directory.
unfoldable pub handle_env_forward :
    (List Bytes → List Bytes)
    → World
    → Option (Map Bytes)
    → Option (Map Node)
    → Option (Map Node) × Reply
unfolding forward_each write_env_file
handle_env_forward sort w none d = (d, invalid_request)
handle_env_forward sort w (some env) none = (none, done)
handle_env_forward sort w (some env) (some d) =
    let (after, rest) = forward_each w env d in
    (elim rest [ [] ↦ some after | e ∷ es ↦ some (write_env_file sort w (e ∷ es) after).0 ], done)
