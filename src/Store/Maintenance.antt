-- ===== src/Store/Maintenance.antt =====
-- src/store/maintenance.rs, and `Local::open` of src/store/mod.rs.
pub mod Purged
use nexuspouch.Base.{
  String, ℕ, ℤ, pos, List, [], ◌∷◌, ◌++◌, Bool, true, false, not, Option, none, some, if◌then◌else◌,
  ◌==◌,
}
use nexuspouch.Result.{Result, ok, err, OpError, op_error}
use nexuspouch.Protocol.{is_valid_device_id}
use nexuspouch.Files.{Node, dir, FilePath, find, create_dir_all, remove_dir_all}
use nexuspouch.Store.Stored.{Stored, absent, broken, holds}
use nexuspouch.Store.Cursors
use nexuspouch.Store.Cursors.{CursorFile}
use nexuspouch.Store.Master.{PointerFile}
use nexuspouch.Store.Externals.{Externals}
use nexuspouch.Store.Local.{Local, with_tree, with_file_cursors, with_pointer}
use nexuspouch.Store.Paths.{Place, io_error}
use nexuspouch.Store.Write.{Uploads}
use nexuspouch.Store.Browse.Size.{dir_size, spaces}
use nexuspouch.Store.Browse.Prune.{bin_path}

abbrev pub device_path : Place → String → FilePath
device_path place device = place.root ++ device ∷ []

-- The loops that make the directories of the spaces: what has been made stays where one fails.
unfoldable pub make_spaces : FilePath → List String → Node → Result OpError (Unit {0}) × Node
make_spaces path [] fs = (ok tt, fs)
make_spaces path (sp ∷ sps) fs = elim (create_dir_all (path ++ sp ∷ []) fs) [
  | none ↦ (err io_error, fs)
  | some fs' ↦ make_spaces path sps fs'
]

module _ (ext : Externals) (place : Place) where
  abbrev purged : String → ℤ → Option Node → Local → Result OpError ℤ × Local
  purged device freed none st = (err io_error, st)
  purged device freed (some fs) st =
      (ok freed, with_file_cursors ((Cursors.remove device st.disk.cursors).1) (with_tree fs st))

  -- A cursor file that cannot be read is left as it is.
  unfoldable pub purge_device : String → String → Local → Result OpError ℤ × Local
  purge_device device own st =
      if not (is_valid_device_id device)
      then (err (op_error "bad_path" "invalid device id"), st)
      else if device == own
      then (err (op_error "acl_denied" "cannot purge self"), st)
      else elim (find (device_path place device) st.disk.fs) [
        | some (dir es) ↦
            purged device (dir_size ext (device_path place device) false st.disk.fs)
              (remove_dir_all (device_path place device) st.disk.fs) st
        | _ ↦ (err (op_error "not_found" device), st)
      ]

  abbrev remade : ℤ → Result OpError (Unit {0}) × Node → Result OpError ℤ × Node
  remade freed (err e, fs) = (err e, fs)
  remade freed (ok _, fs) = (ok freed, fs)

  abbrev made_again : ℤ → Option Node → Node → FilePath → Result OpError ℤ × Node
  made_again freed none fs path = (err io_error, fs)
  made_again freed (some fs') fs path = remade freed (make_spaces path spaces fs')

  abbrev wiped : ℤ → Option Node → Node → FilePath → Result OpError ℤ × Node
  wiped freed none fs path = (err io_error, fs)
  wiped freed (some fs') fs path = made_again freed (create_dir_all path fs') fs' path

  -- The root is a directory, so that the device's own directory is there or missing.
  unfoldable pub wipe_self : String → Node → Result OpError ℤ × Node
  wipe_self device fs =
      let path = device_path place device in
      if not (is_valid_device_id device)
      then (err (op_error "bad_path" "invalid device id"), fs)
      else if not (device == place.device_id)
      then (err (op_error "acl_denied" "can only wipe self"), fs)
      else elim (find path fs) [
        | none ↦ (ok (pos 0), fs)
        | some (dir es) ↦ wiped (dir_size ext path false fs) (remove_dir_all path fs) fs path
        | some _ ↦ (err (op_error "bad_path" "not a device directory"), fs)
      ]

-- Where there is no pointer yet, the node takes itself for the master.
abbrev pub first_pointer : String → PointerFile → PointerFile
first_pointer device absent = holds (record { master = device; epoch = pos 0 })
first_pointer device p = p

-- What survives a restart is what lies on the disk: no upload and no seed authorisation does.
abbrev pub reopened : Place → Node → Local → Local
reopened place fs st = record {
  disk = record { fs = fs; uploads = []; cursors = st.disk.cursors };
  pointer = first_pointer place.device_id st.pointer;
  imports = st.imports;
  seeds = [];
}

abbrev opened : Place → Local → Result OpError (Unit {0}) × Node → Result OpError Local
opened place st (err e, fs) = err e
opened place st (ok _, fs) = elim (create_dir_all (bin_path place) fs) [
  | none ↦ err io_error
  | some fs' ↦ ok (reopened place fs' st)
]

-- `Local::open`; `st` is what an earlier run has left.
unfoldable pub open_local : Place → Local → Result OpError Local
open_local place st =
    if not (is_valid_device_id place.device_id)
    then err (op_error "internal" "bad device id")
    else elim (create_dir_all place.root st.disk.fs) [
      | none ↦ err io_error
      | some fs ↦ opened place st (make_spaces (device_path place place.device_id) spaces fs)
    ]
