-- ===== src/Store/Browse/Size.antt =====
-- `dir_size` and `stats` of src/store/browse.rs.
pub mod Staging
use nexuspouch.Base.{
  String, ℕ, ℤ, pos, wrap_i64, ◌+◌, ◌+ℤ◌, List, [], ◌∷◌, ◌++◌, Bool, true, false, ◌&&◌, not, Option,
  none, some, if◌then◌else◌, length, is_empty,
}
use nexuspouch.Base.Dict.{Dict}
use nexuspouch.Base.Json
use nexuspouch.Base.Json.{Fields, end, field, int, string, object}
use nexuspouch.Result.{Result, ok, err, OpError}
use nexuspouch.Protocol.{is_valid_device_id}
use nexuspouch.Files
use nexuspouch.Files.{Node, file, dir, symlink, Entries, entry, FilePath, find, is_dir, get_entry}
use nexuspouch.Store.Cursors.{load_locked, encode, CursorFile}
use nexuspouch.Store.Master.{load_pointer, PointerFile, MasterPointer}
use nexuspouch.Store.Externals.{Externals}
use nexuspouch.Store.Local.{Local}
use nexuspouch.Store.Paths.{Place, io_error}
use nexuspouch.Store.Browse.Walk.{is_dotted}

-- the directories of a device
abbrev pub spaces : List String
spaces = "artifacts" ∷ "files" ∷ "attachments" ∷ "backups" ∷ []

module _ (ext : Externals) where
  abbrev pub length_of : FilePath → Node → ℕ
  length_of path (file bytes mtime) = length bytes
  length_of path _ = (ext.link_stat path).0

  -- The bytes below a directory. `at_base` tells whether it is the one that was asked for; its own
  -- directories are not skipped.
  unfoldable mutual
    pub walk_dir_size : Bool → Bool → FilePath → Node → ℕ
    walk_dir_size skip at_base path (dir es) = walk_entry_sizes skip at_base path es
    walk_dir_size skip at_base path node = length_of path node

    pub walk_entry_sizes : Bool → Bool → FilePath → Entries → ℕ
    walk_entry_sizes skip at_base path Files.nil = 0
    walk_entry_sizes skip at_base path (entry name node es) =
        let inside = walk_dir_size skip false (path ++ name ∷ []) node in
        let rest = walk_entry_sizes skip at_base path es in
        if is_dir node && skip && is_dotted name && not at_base then rest else inside + rest

  abbrev pub size_of : Bool → FilePath → Option Node → ℕ
  size_of skip path (some (dir es)) = walk_entry_sizes skip true path es
  size_of skip path _ = 0

  -- To wrap the sum around at the end is to wrap every step of it.
  unfoldable pub dir_size : FilePath → Bool → Node → ℤ
  dir_size path skip fs = wrap_i64 (pos (size_of skip path (find path fs)))

  module _ (place : Place) (fs : Node) where
    abbrev space_sizes : String → List String → Fields
    space_sizes device [] = end
    space_sizes device (sp ∷ sps) =
        field sp (int (dir_size (place.root ++ device ∷ sp ∷ []) true fs)) (space_sizes device sps)

    abbrev is_device : String → Node → Bool
    is_device name node = is_dir node && is_valid_device_id name

    -- The first loop of `stats`, over the entries of the root.
    unfoldable pub device_sizes : Entries → Fields
    device_sizes Files.nil = end
    device_sizes (entry name node es) =
        let rest = device_sizes es in
        if is_device name node then field name (object (space_sizes name spaces)) rest else rest

    abbrev staging_of : String → List String → ℤ
    staging_of device [] = pos 0
    staging_of device (sp ∷ sps) =
        wrap_i64
          (dir_size (place.root ++ device ∷ sp ∷ ".staging" ∷ []) false fs +ℤ staging_of device sps)

    -- The second loop, over the devices that the first has found.
    unfoldable pub staging_bytes : Fields → ℤ
    staging_bytes end = pos 0
    staging_bytes (field device v rest) = wrap_i64 (staging_of device spaces +ℤ staging_bytes rest)

    abbrev cursor_fields : Result OpError (Dict ℤ) → Fields
    cursor_fields (err e) = end
    cursor_fields (ok []) = end
    cursor_fields (ok (c ∷ cs)) = field "device_cursors" (object (encode (c ∷ cs))) end

    abbrev pointer_fields : Result OpError MasterPointer → Fields → Fields
    pointer_fields (err e) rest = rest
    pointer_fields (ok p) rest =
        field "master" (string p.master) (field "master_epoch" (int p.epoch) rest)

    abbrev stats_reply : Fields → CursorFile → PointerFile → Fields
    stats_reply devices cursors pointer = field "devices" (object devices) (
        field "staging_bytes" (int (staging_bytes devices)) (
          field "recycle_bytes" (int (dir_size (place.root ++ ".recycle" ∷ []) false fs)) (
            pointer_fields (load_pointer place.device_id pointer)
              (cursor_fields (load_locked cursors)))))

    abbrev stats_of : Option Node → CursorFile → PointerFile → Result OpError Fields
    stats_of (some (dir es)) cursors pointer = ok (stats_reply (device_sizes es) cursors pointer)
    stats_of _ cursors pointer = err io_error

  unfoldable pub stats : Place → Local → Result OpError Fields
  stats place st = stats_of place st.disk.fs (find place.root st.disk.fs) st.disk.cursors st.pointer
