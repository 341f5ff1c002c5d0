-- ===== src/Files.antt =====
-- The file system as the store uses it through `std::fs`: a tree of directories, regular files and
-- symbolic links. A link is a leaf: the model never follows one. An operation fails where a
-- directory or file that it needs is missing or is of another kind; faults of the device, full
-- disks and permissions are left out.
pub mod Alter
pub mod Laws
pub mod Rename
pub mod Parents
pub mod Emptied
use nexuspouch.Base.{
  String, ℕ, zero, suc, ◌+◌, ◌-◌, List, [], ◌∷◌, ◌++◌, Bool, true, false, Option, none, some,
  if◌then◌else◌, ◌==◌, length, take, drop, replicate,
}

mutual
  pub data Node : Type 0 where
    -- content and modification time in milliseconds
    file : List ℕ → ℕ → Node
    dir : Entries → Node
    symlink : Node

  pub data Entries : Type 0 where
    nil : Entries
    entry : String → Node → Entries → Entries

-- The names that lead from the root to a file.
abbrev pub FilePath : Type 0
FilePath = List String

unfoldable pub get_entry : String → Entries → Option Node
get_entry name nil = none
get_entry name (entry n node es) = if n == name then some node else get_entry name es

abbrev cons_entry : String → Option Node → Entries → Entries
cons_entry name none es = es
cons_entry name (some node) es = entry name node es

unfoldable pub without : String → Entries → Entries
without name nil = nil
without name (entry n node es) =
    let rest = without name es in if n == name then rest else entry n node rest

-- Puts a node under a name, or takes the name away; `read_dir` promises no order.
unfoldable pub assign : String → Option Node → Entries → Entries
assign name o es = cons_entry name o (without name es)

-- `fs::symlink_metadata`, `File::open` and the like look here.
unfoldable pub find : FilePath → Node → Option Node
find [] node = some node
find (name ∷ path) (dir es) = elim (get_entry name es) [
  | none ↦ none
  | some child ↦ find path child
]
find (name ∷ path) _ = none

-- Writes or takes away the entry at a path whose parent is a directory.
unfoldable pub alter : FilePath → Option Node → Node → Option Node
alter [] o node = none
alter (name ∷ []) o (dir es) = some (dir (assign name o es))
alter (name ∷ (next ∷ path)) o (dir es) = elim (get_entry name es) [
  | none ↦ none
  | some child ↦ elim (alter (next ∷ path) o child) [
    | none ↦ none
    | some child' ↦ some (dir (assign name (some child') es))
  ]
]
alter (name ∷ path) o _ = none

abbrev or_empty_dir : Option Node → Node
or_empty_dir none = dir nil
or_empty_dir (some node) = node

-- `fs::create_dir_all`
unfoldable pub create_dir_all : FilePath → Node → Option Node
create_dir_all [] (dir es) = some (dir es)
create_dir_all (name ∷ path) (dir es) =
    elim (create_dir_all path (or_empty_dir (get_entry name es))) [
      | none ↦ none
      | some child ↦ some (dir (assign name (some child) es))
    ]
create_dir_all path _ = none

abbrev pub is_some {ℓ} : {A : Type ℓ} → Option A → Bool
is_some none = false
is_some (some a) = true

-- `path.parent()`
abbrev pub parent : FilePath → FilePath
parent [] = []
parent (x ∷ []) = []
parent (x ∷ (y ∷ path)) = x ∷ parent (y ∷ path)

-- `path.exists()`
abbrev pub exists : FilePath → Node → Bool
exists path root = is_some (find path root)

-- What `rename` may put a node over.
abbrev may_replace : Node → Option Node → Bool
may_replace node none = true
may_replace (dir es) (some (dir nil)) = true
may_replace (dir es) (some _) = false
may_replace _ (some (dir es)) = false
may_replace _ (some _) = true

-- `fs::rename`
unfoldable pub rename : FilePath → FilePath → Node → Option Node
rename from to root = elim (find from root) [
  | none ↦ none
  | some node ↦
      if may_replace node (find to root)
      then (elim (alter from none root) [ none ↦ none | some root' ↦ alter to (some node) root' ])
      else none
]

-- `fs::remove_file`
unfoldable pub remove_file : FilePath → Node → Option Node
remove_file path root = elim (find path root) [
  | some (file bytes mtime) ↦ alter path none root
  | some symlink ↦ alter path none root
  | _ ↦ none
]

-- `fs::remove_dir_all`
unfoldable pub remove_dir_all : FilePath → Node → Option Node
remove_dir_all path root = elim (find path root) [ some (dir es) ↦ alter path none root | _ ↦ none ]

-- `fs::remove_dir`, which takes an empty directory only
unfoldable pub remove_dir : FilePath → Node → Option Node
remove_dir path root = elim (find path root) [ some (dir nil) ↦ alter path none root | _ ↦ none ]

abbrev pub is_dir : Node → Bool
is_dir (dir es) = true
is_dir _ = false

-- A name on the way is no directory: the error is then not `NotFound`.
unfoldable pub is_blocked : FilePath → Node → Bool
is_blocked [] node = false
is_blocked (name ∷ path) (dir es) = elim (get_entry name es) [
  | none ↦ false
  | some child ↦ is_blocked path child
]
is_blocked (name ∷ path) _ = true

-- `fs::write(path, data)`, at a moment
unfoldable pub write_file : FilePath → List ℕ → ℕ → Node → Option Node
write_file path bytes now root = elim (find path root) [
  | some (dir es) ↦ none
  | some symlink ↦ none
  | _ ↦ alter path (some (file bytes now)) root
]

-- `File::open` and reading to the end
abbrev pub content : Option Node → Option (List ℕ)
content (some (file bytes mtime)) = some bytes
content _ = none

abbrev pub read_file : FilePath → Node → Option (List ℕ)
read_file path root = content (find path root)

-- `seek` and `write_all`: what lies between the end and the offset is filled with zeros.
unfoldable pub write_at : ℕ → List ℕ → List ℕ → List ℕ
write_at offset data' bytes =
    take offset bytes
    ++ (replicate (offset - length bytes) 0 ++ (data' ++ drop (offset + length data') bytes))
