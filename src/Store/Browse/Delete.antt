-- ===== src/Store/Browse/Delete.antt =====
-- `delete` and `admin_delete` of src/store/browse.rs.
pub mod Cursor
use nexuspouch.Base.{String, ℕ, ℤ, Bool, true, Option, none, some, if◌then◌else◌, ◌==◌, not}
use nexuspouch.Base.Json.{Fields, end, field, int, bool, string, payload_int64}
use nexuspouch.Result.{Result, ok, err, OpError, op_error, map_err, fail_if, ◌>>=◌, ◌>>◌}
use nexuspouch.Protocol.{Frame, space_of, normalize_path, is_valid_device_id, is_valid_space}
use nexuspouch.Files.{Node}
use nexuspouch.Store.Cursors
use nexuspouch.Store.Cursors.{CursorFile}
use nexuspouch.Store.Externals.{Externals}
use nexuspouch.Store.Local.{Local, Moment, with_tree, with_file_cursors}
use nexuspouch.Store.Paths.{Place, move_to_recycle}
use nexuspouch.Store.Browse.{device_or_caller, path_of}

-- What is not there any more is reported as deleted already.
unfoldable pub delete_reply : Result OpError String → Result OpError (Fields → Fields)
delete_reply (ok rel) = ok (field "recycled" (string rel))
delete_reply (err e) =
    if e.code == "not_found"
    then ok (λ rest. field "recycled" (string "") (field "already_gone" (bool true) rest))
    else err e

abbrev advanced :
    (Fields → Fields) → Result OpError ℤ × CursorFile → Local → Result OpError Fields × Local
advanced reply (err e, c) st = (err e, with_file_cursors c st)
advanced reply (ok seq, c) st =
    (ok (reply (field "applied_seq" (int seq) end)), with_file_cursors c st)

-- The cursor moves also where the file has been gone already.
unfoldable pub delete_seq :
    Option ℤ → String → (Fields → Fields) → Local → Result OpError Fields × Local
delete_seq none caller reply st = (ok (reply end), st)
delete_seq (some upto) caller reply st =
    advanced reply (Cursors.advance caller upto st.disk.cursors) st

module _ (ext : Externals) (place : Place) (at : Moment) where
  abbrev recycled :
      Frame → String → Result OpError (Fields → Fields) → Local → Result OpError Fields × Local
  recycled frame caller (err e) st = (err e, st)
  recycled frame caller (ok reply) st =
      delete_seq (payload_int64 frame.payload "upto_seq") caller reply st

  unfoldable pub delete : Frame → String → Local → Result OpError Fields × Local
  delete frame caller st = elim (map_err (op_error "bad_path") (normalize_path (path_of frame))) [
    | err e ↦ (err e, st)
    | ok norm ↦
        let (r, fs) =
          move_to_recycle ext place (device_or_caller frame caller) (space_of frame) norm at.date
            at.now st.disk.fs in
        recycled frame caller (delete_reply r) (with_tree fs st)
  ]

  unfoldable pub admin_delete : String → String → String → Node → Result OpError Fields × Node
  admin_delete device space path fs =
      elim (do
        fail_if (not (is_valid_device_id device)) (op_error "bad_path" "invalid device id")
        fail_if (not (is_valid_space space)) (op_error "bad_op" "invalid space")
        map_err (op_error "bad_path") (normalize_path path)) [
          | err e ↦ (err e, fs)
          | ok norm ↦
              let (r, fs') = move_to_recycle ext place device space norm at.date at.now fs in
              ((do rel ← r; ok (field "recycled" (string rel) end)), fs')
        ]
