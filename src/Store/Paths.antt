-- ===== src/Store/Paths.antt =====
-- From a device, a space and a path of a message to a place in the file system: `resolve_path` and
-- `move_to_recycle` of src/store/browse.rs, `reject_symlink_under` of src/store/write.rs.
pub mod Inside
pub mod Siblings
pub mod Moved
use Prim.Native.String.{◌++◌ as ◌<>◌}
use nexuspouch.Base.{
  String, ℕ, List, [], ◌∷◌, ◌++◌, Bool, true, false, ◌||◌, Option, none, some, if◌then◌else◌, ◌==◌,
  is_empty, split_char, not, select,
}
use nexuspouch.Base.Decimal.{show_ℕ}
use nexuspouch.Result.{Result, ok, err, OpError, op_error, map_err, ◌>>=◌, ◌>>◌}
use nexuspouch.Protocol.{normalize_path}
pub use nexuspouch.Files.{parent}
use nexuspouch.Files.{Node, symlink, FilePath, find, exists, create_dir_all, rename}
use nexuspouch.Store.Externals.{Externals}

-- The part of a node that its paths depend on: `local.root` and `local.device_id`.
pub record Place : Type 0 where
  pub root : FilePath
  pub device_id : String

-- `path.strip_prefix(base)`
unfoldable pub strip_prefix : FilePath → FilePath → Option FilePath
strip_prefix [] path = some path
strip_prefix (x ∷ base) [] = none
strip_prefix (x ∷ base) (y ∷ path) = if x == y then strip_prefix base path else none

abbrev pub is_link : Option Node → Bool
is_link (some symlink) = true
is_link _ = false

-- The loop over the segments: no prefix longer than `cur` is a link.
unfoldable pub walk_links : FilePath → FilePath → Node → Result OpError (Unit {0})
walk_links cur [] fs = ok tt
walk_links cur (seg ∷ rel) fs =
    let rest = walk_links (cur ++ seg ∷ []) rel fs in
    if is_link (find (cur ++ seg ∷ []) fs)
    then err (op_error "bad_path" "symlink not allowed")
    else rest

abbrev or_self : FilePath → Option FilePath → FilePath
or_self p none = p
or_self p (some q) = q

abbrev walk_stripped : FilePath → Option FilePath → Node → Result OpError (Unit {0})
walk_stripped base none fs = ok tt
walk_stripped base (some rel) fs = walk_links base rel fs

-- The names that `join` appends for a single name: none for an empty one and for ".".
abbrev pub name_segments : String → FilePath
name_segments name = if is_empty name || name == "." then [] else name ∷ []

abbrev pub base_path : Place → String → String → FilePath
base_path place device space = place.root ++ (name_segments device ++ name_segments space)

-- `root.join(rel)` for a relative text: empty names and "." lead nowhere.
abbrev pub is_name : String → Bool
is_name name = not (is_empty name || name == ".")

unfoldable pub names_of : String → FilePath
names_of rel = select is_name (split_char b'/' rel)

abbrev pub joined_path : FilePath → String → FilePath
joined_path root rel = root ++ names_of rel

abbrev pub io_error : OpError
io_error = op_error "internal" "io error"

abbrev renamed : String → Option Node → Node → Result OpError String × Node
renamed rel none fs = (err io_error, fs)
renamed rel (some fs') fs = (ok rel, fs')

-- the directories are made first, and stay where the rename fails
move_into : FilePath → FilePath → String → Node → Result OpError String × Node
move_into full dest rel fs = elim (create_dir_all (parent dest) fs) [
  | none ↦ (err io_error, fs)
  | some fs' ↦ renamed rel (rename full dest fs') fs'
]

module _ (ext : Externals) where
  unfoldable pub reject_symlink_under : FilePath → FilePath → Node → Result OpError (Unit {0})
  reject_symlink_under space_root path fs =
      let canonical = or_self space_root (ext.canonicalize space_root fs) in
      if is_link (find canonical fs)
      then err (op_error "bad_path" "symlink not allowed")
      else walk_stripped canonical (strip_prefix canonical path) fs

  -- The end of `resolve_path`, with the check that the full path lies below the base. In an empty
  -- space the base ends in a separator itself (`join("")`), and nothing begins with it and another.
  unfoldable pub check_full : String → FilePath → FilePath → Node → Result OpError FilePath
  check_full space base full fs =
      if is_empty space then err (op_error "bad_path" "escape") else elim (strip_prefix base full) [
        | none ↦ err (op_error "bad_path" "escape")
        | some rel ↦ do reject_symlink_under base full fs; ok full
      ]

  unfoldable pub resolve_path : Place → String → String → String → Node → Result OpError FilePath
  unfolding check_full
  resolve_path place space device rel fs =
      let base = base_path place (if is_empty device then place.device_id else device) space in
      if is_empty rel || rel == "/" then (do reject_symlink_under base base fs; ok base) else do
        norm ← map_err (op_error "bad_path") (normalize_path rel)
        check_full space base (base ++ split_char b'/' norm) fs

  -- `.recycle/{date}/{device}/{space}/{rel}`, and the same with the time behind it
  abbrev pub recycle_rel : String → String → String → String → String
  recycle_rel date device space rel =
      ".recycle/" <> (date <> ("/" <> (device <> ("/" <> (space <> ("/" <> rel))))))

  abbrev pub choose_recycle : Place → String → ℕ → Node → String
  choose_recycle place rel now fs =
      if exists (joined_path place.root rel) fs then rel <> ("~" <> show_ℕ now) else rel

  -- `date` is the local date and `now` the wall clock in milliseconds.
  unfoldable pub move_to_recycle :
      Place → String → String → String → String → ℕ → Node → Result OpError String × Node
  unfolding move_into
  move_to_recycle place device space rel date now fs =
      elim (resolve_path place space device rel fs) [
        | err e ↦ (err e, fs)
        | ok full ↦
            let target = choose_recycle place (recycle_rel date device space rel) now fs in
            if not (exists full fs)
            then (err (op_error "not_found" "not found"), fs)
            else move_into full (joined_path place.root target) target fs
      ]
