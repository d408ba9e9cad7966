-- ===== src/Platform/SessionDirs.antt =====
-- internal/platform/history/metadata.go and dirops.go: the directories of the sessions below a base
-- directory, as a map from their names. `json.Unmarshal` and `json.MarshalIndent` are arguments, and
-- so are sort.Slice and what the system does on a write or a removal.
pub mod Listing
pub mod Evict
use wmux.Prelude.{
  ℕ, ◌+◌, ◌-◌, leb, not, ◌&&◌, if◌then◌else◌, Bool, true, false, ◌⊎◌, inl, inr, List, [], ◌∷◌, ◌++◌,
  Option, none, some, Bytes, codes, bytes_eq, length, Map, delete, lookup, insert, ltb,
}
use wmux.Prelude.Int.{ℤ, pos, negsuc}

pub record Metadata : Type 0 where
  pub session_id : Bytes
  pub shell : Bytes
  pub cwd : Bytes
  pub cols : ℤ
  pub rows : ℤ
  pub started_at : ℕ
  pub ended_at : Option ℕ
  pub exit_code : Option ℤ

-- An entry of a directory; `stat` is whether its size can be read.
pub record File : Type 0 where
  pub name : Bytes
  pub is_dir : Bool
  pub stat : Bool
  pub content : Bytes

-- An entry of the base directory; `readable` is whether its entries can be listed.
pub record Dir : Type 0 where
  pub is_dir : Bool
  pub readable : Bool
  pub files : List File

pub data Error : Type 0 where
  read_failed unmarshal_failed marshal_failed write_failed list_failed remove_failed : Error

abbrev pub meta_file_name : Bytes
meta_file_name = codes "meta.json"

-- os.ReadFile; a directory cannot be read.
unfoldable pub read_file : Bytes → List File → Option Bytes
read_file n [] = none
read_file n (f ∷ fs) =
    if bytes_eq f.name n then if f.is_dir then none else some f.content else read_file n fs

-- A file with these contents.
unfoldable pub write_file : Bytes → Bytes → List File → List File
write_file n content [] = record { name = n; is_dir = false; stat = true; content = content } ∷ []
write_file n content (f ∷ fs) =
    if bytes_eq f.name n then record f { content = content } ∷ fs else f ∷ write_file n content fs

unfoldable pub read_metadata : (Bytes → Option Metadata) → Dir → Error ⊎ Metadata
unfolding read_file
read_metadata unmarshal d = elim (read_file meta_file_name d.files) [
  | none ↦ inl read_failed
  | some text ↦ elim (unmarshal text) [ none ↦ inl unmarshal_failed | some m ↦ inr m ]
]

-- What os.WriteFile does: it writes, or it fails and leaves the file as it was, or, as it truncates
-- first, with other contents.
pub data WriteResult : Type 0 where
  writes : WriteResult
  cuts : Option Bytes → WriteResult

unfoldable pub store : WriteResult → Bytes → Dir → Dir × Option Error
unfolding write_file
store writes text d = (record d { files = write_file meta_file_name text d.files }, none)
store (cuts none) text d = (d, some write_failed)
store (cuts (some part)) text d =
    (record d { files = write_file meta_file_name part d.files }, some write_failed)

unfoldable pub write_metadata :
    (Metadata → Option Bytes) → WriteResult → Dir → Metadata → Dir × Option Error
unfolding store
write_metadata marshal wrote d m = elim (marshal m) [
  | none ↦ (d, some marshal_failed)
  | some text ↦ store wrote text d
]

unfoldable pub update_metadata_exit :
    (Bytes → Option Metadata)
    → (Metadata → Option Bytes)
    → WriteResult
    → ℕ
    → ℤ
    → Dir
    → Dir × Option Error
unfolding read_metadata write_metadata
update_metadata_exit unmarshal marshal wrote ended_at exit_code d =
    elim (read_metadata unmarshal d) [
      | inl e ↦ (d, some e)
      | inr m ↦
          write_metadata marshal wrote d
            (record m { ended_at = some ended_at; exit_code = some exit_code })
    ]

-- The size of the regular files.
unfoldable pub files_size : List File → ℕ
files_size [] = 0
files_size (f ∷ fs) =
    if not f.is_dir && f.stat then length f.content + files_size fs else files_size fs

-- `DirSize`, which is 0 beside an error.
unfoldable pub dir_size : Dir → ℕ
unfolding files_size
dir_size d = if d.readable then files_size d.files else 0

-- SessionDirInfo; the path is the base directory with the name.
pub record SessionDirInfo : Type 0 where
  pub path : Bytes
  pub session_id : Bytes
  pub ended_at : Option ℕ
  pub size : ℕ

-- What `ListSessionDirs` appends for an entry.
unfoldable pub info : (Bytes → Option Metadata) → Bytes → Dir → Option SessionDirInfo
unfolding read_metadata dir_size
info unmarshal name d =
    if d.is_dir
    then elim (read_metadata unmarshal d) [
      | inl e ↦ none
      | inr m ↦ some (record {
        path = name;
        session_id = m.session_id;
        ended_at = m.ended_at;
        size = dir_size d;
      })
    ]
    else none

abbrev pub with_info : Option SessionDirInfo → List SessionDirInfo → List SessionDirInfo
with_info none ds = ds
with_info (some d) ds = d ∷ ds

unfoldable pub session_dirs : (Bytes → Option Metadata) → Map Dir → List SessionDirInfo
unfolding info
session_dirs unmarshal [] = []
session_dirs unmarshal ((name, d) ∷ tree) =
    with_info (info unmarshal name d) (session_dirs unmarshal tree)

-- The base directory, if it can be listed.
unfoldable pub list_session_dirs :
    (Bytes → Option Metadata) → Option (Map Dir) → Error ⊎ List SessionDirInfo
unfolding session_dirs
list_session_dirs unmarshal none = inl list_failed
list_session_dirs unmarshal (some tree) = inr (session_dirs unmarshal tree)

-- `TotalSize` of the base directory that it has listed.
unfoldable pub total_size : Map Dir → ℕ
unfolding dir_size
total_size [] = 0
total_size ((name, d) ∷ tree) = if d.is_dir then dir_size d + total_size tree else total_size tree

unfoldable pub sum_sizes : List SessionDirInfo → ℕ
sum_sizes [] = 0
sum_sizes (d ∷ ds) = d.size + sum_sizes ds

unfoldable pub completed : List SessionDirInfo → List SessionDirInfo
completed [] = []
completed (d ∷ ds) = elim d.ended_at [ none ↦ completed ds | some t ↦ d ∷ completed ds ]

-- `currentTotal <= maxTotal`.
abbrev pub fits : ℕ → ℤ → Bool
fits n (pos max) = leb n max
fits n (negsuc max) = false

-- What os.RemoveAll does to a directory: all goes, or it fails and these files stay.
pub data Removal : Type 0 where
  removed : Removal
  stays : (File → Bool) → Removal

unfoldable pub staying : (File → Bool) → List File → List File
staying stay [] = []
staying stay (f ∷ fs) = if stay f then f ∷ staying stay fs else staying stay fs

-- The directories behind a removal that fails.
unfoldable pub leave_behind : (File → Bool) → Bytes → Map Dir → Map Dir
unfolding staying
leave_behind stay path tree = elim (lookup path tree) [
  | none ↦ tree
  | some x ↦ insert path (record x { files = staying stay x.files }) tree
]

-- The loop that removes.
unfoldable pub evict :
    (Bytes → Removal) → ℤ → ℕ → List SessionDirInfo → Map Dir → Map Dir × Option Error
unfolding leave_behind
evict removes max total [] tree = (tree, none)
evict removes max total (d ∷ ds) tree =
    let rest = evict removes max (total - d.size) ds (delete d.path tree) in
    if fits total max then (tree, none) else elim (removes d.path) [
      | removed ↦ rest
      | stays stay ↦ (leave_behind stay d.path tree, some remove_failed)
    ]

-- `completed[i].EndedAt.Before(*completed[j].EndedAt)`; both have ended.
unfoldable pub ended_before : SessionDirInfo → SessionDirInfo → Bool
ended_before a b = elim a.ended_at [
  | none ↦ false
  | some s ↦ elim b.ended_at [ none ↦ false | some t ↦ ltb s t ]
]

-- `EvictLRU`; `sort` is sort.Slice, which is given the order.
unfoldable pub evict_lru :
    (Bytes → Option Metadata)
    → ((SessionDirInfo → SessionDirInfo → Bool) → List SessionDirInfo → List SessionDirInfo)
    → (Bytes → Removal)
    → ℤ
    → Map Dir
    → Map Dir × Option Error
unfolding session_dirs sum_sizes completed evict ended_before
evict_lru unmarshal sort removes max tree =
    let dirs = session_dirs unmarshal tree in
    if fits (sum_sizes dirs) max
    then (tree, none)
    else evict removes max (sum_sizes dirs) (sort ended_before (completed dirs)) tree
