-- ===== src/Store/Write/Commit.antt =====
-- `commit` of src/store/write.rs: every file is checked before the first is moved.
pub mod Verified
pub mod Cursor
pub mod Placed
use Prim.Native.String.{◌++◌ as ◌<>◌}
use nexuspouch.Base.{
  String, ℕ, ℤ, pos, negsuc, ltb_ℤ, eqb_ℤ, List, [], ◌∷◌, ◌++◌, Bool, true, false, ◌&&◌, not,
  Option, none, some, if◌then◌else◌, is_empty, ◌==◌, length, split_char,
}
use nexuspouch.Base.Dict
use nexuspouch.Base.Dict.{Dict}
use nexuspouch.Base.Json
use nexuspouch.Base.Json.{
  Value, Items, nil, cons, Fields, end, field, int, string, array, object, as_str, as_array, ◌>>=?◌,
  unwrap_or, strings, payload_int64,
}
use nexuspouch.Result.{Result, ok, err, OpError, op_error, fail_if, ok_or, ◌>>=◌, ◌>>◌}
use nexuspouch.Protocol.{Frame}
use nexuspouch.Files.{Node, FilePath, exists, create_dir_all, rename, remove_file, read_file}
use nexuspouch.Store.Cursors
use nexuspouch.Store.Cursors.{CursorFile}
use nexuspouch.Store.Externals.{Externals, StagingMeta}
use nexuspouch.Store.Paths.{
  io_error, Place, base_path, parent, reject_symlink_under, move_to_recycle,
}
use nexuspouch.Store.Write.{Upload, Uploads, check_upload_id}

-- `Pending` of `commit`
pub record Pending : Type 0 where
  pub id : String
  pub u : Upload
  pub sum : String
  pub size : ℤ

abbrev pub pending : String → Upload → String → ℤ → Pending
pending i u s n = record { id = i; u = u; sum = s; size = n }

unfoldable pub ids_of : Fields → List String
ids_of payload = elim (Json.get "upload_ids" payload >>=? as_array) [
  | some xs ↦ strings xs
  | none ↦ elim (Json.get "upload_id" payload >>=? as_str) [ some s ↦ s ∷ [] | none ↦ [] ]
]

abbrev pub meta_of : Upload → StagingMeta
meta_of u = record {
  path = u.path;
  size = u.declared_size;
  sha256 = u.declared_sha;
  created_ms = pos 0;
}

-- What the second loop has done: the files in their places, and the ids that failed with the error.
pub record Outcome : Type 0 where
  pub committed : List Pending
  pub failed : List (String × String)

abbrev committed_value : Pending → Value
committed_value p = object (
    field "upload_id" (string p.id) (
      field "path" (string p.u.path)
        (field "size" (int p.size) (field "sha256" (string p.sum) end))))

abbrev failed_value : String × String → Value
failed_value (i, e) = object (field "upload_id" (string i) (field "error" (string e) end))

unfoldable pub committed_items : List Pending → Items
committed_items [] = nil
committed_items (p ∷ ps) = cons (committed_value p) (committed_items ps)

unfoldable pub failed_items : List (String × String) → Items
failed_items [] = nil
failed_items (f ∷ fs) = cons (failed_value f) (failed_items fs)

abbrev commit_reply : Outcome → Fields → Fields
commit_reply o rest = field "files" (array (committed_items o.committed)) (
    field "committed" (array (committed_items o.committed))
      (field "failed" (array (failed_items o.failed)) rest))

-- `e.to_string()`
abbrev display : OpError → String
display e = e.code <> (": " <> e.msg)

abbrev pub with_fs : Node → Uploads → Uploads
with_fs fs st = record { fs = fs; uploads = st.uploads; cursors = st.cursors }

abbrev pub with_cursors : CursorFile → Uploads → Uploads
with_cursors c st = record { fs = st.fs; uploads = st.uploads; cursors = c }

-- `let _ = fs::remove_file(..)`
abbrev pub remove_quietly : FilePath → Node → Node
remove_quietly path fs = unwrap_or fs (remove_file path fs)

abbrev pub dest_of : Place → Upload → FilePath
dest_of place u = base_path place u.device u.space ++ split_char b'/' u.path

module _ (ext : Externals) where
  -- One round of the first loop, which changes nothing.
  unfoldable pub verify : Uploads → String → Result OpError Pending
  verify st id = do
    check_upload_id id
    u ← ok_or (op_error "staging_state" ("unknown " <> id)) (Dict.lookup id st.uploads)
    let meta = unwrap_or (meta_of u) (read_file u.meta_path st.fs >>=? ext.decode_staging)
    bytes ← ok_or io_error (read_file u.tmp st.fs)
    fail_if (not (ltb_ℤ meta.size (pos 0)) && not (eqb_ℤ (pos (length bytes)) meta.size))
        (op_error "hash_mismatch" (id <> ": size"))
    fail_if (not (is_empty meta.sha256) && not (ext.sha256_hex bytes == meta.sha256))
        (op_error "hash_mismatch" id)
    ok (pending id u (ext.sha256_hex bytes) (pos (length bytes)))

  unfoldable pub verify_all : Uploads → List String → Result OpError (List Pending)
  verify_all st [] = ok []
  verify_all st (id ∷ ids) = do p ← verify st id; ps ← verify_all st ids; ok (p ∷ ps)

  module _ (place : Place) (date : String) (now : ℕ) where
    abbrev moved : Result OpError String → Result String (Unit {0})
    moved (err e) = err (display e)
    moved (ok rel) = ok tt

    -- A file that is in the way goes to the recycle bin first.
    unfoldable pub clear_dest : Pending → FilePath → Node → Result String (Unit {0}) × Node
    clear_dest p dest fs =
        if not (exists dest fs)
        then (ok tt, fs)
        else let (r, fs1) = move_to_recycle ext place p.u.device p.u.space p.u.path date now fs in
          (moved r, fs1)

    unfoldable pub place_part : Pending → FilePath → Node → Result String (Unit {0}) × Node
    place_part p dest fs = elim (rename p.u.tmp dest fs) [
      | none ↦ (err "io error", fs)
      | some fs1 ↦ (ok tt, remove_quietly p.u.meta_path fs1)
    ]

    -- One round of the second loop as far as it concerns the files.
    unfoldable pub move_in : Pending → Node → Result String (Unit {0}) × Node
    unfolding clear_dest place_part
    move_in p fs =
        let dest = dest_of place p.u in
        elim (create_dir_all (parent dest) fs) [
          | none ↦ (err "io error", fs)
          | some fs1 ↦
              elim (reject_symlink_under ext (base_path place p.u.device p.u.space) dest fs1) [
                | err e ↦ (err e.msg, fs1)
                | ok _ ↦
                    let (r, fs2) = clear_dest p dest fs1 in
                    elim r [ err e ↦ (err e, fs2) | ok _ ↦ place_part p dest fs2 ]
              ]
        ]

    -- The second loop; `o` is what earlier rounds have done.
    unfoldable pub commit_all : List Pending → Outcome → Uploads → Outcome × Uploads
    commit_all [] o st = (o, st)
    commit_all (p ∷ ps) o st =
        let (r, fs) = move_in p st.fs in
        elim r [
          | err e ↦
              commit_all ps
                (record { committed = o.committed; failed = o.failed ++ (p.id, e) ∷ [] })
                (with_fs fs st)
          | ok _ ↦
              commit_all ps (record { committed = o.committed ++ p ∷ []; failed = o.failed })
                (record { fs = fs; uploads = Dict.remove p.id st.uploads; cursors = st.cursors })
        ]

    abbrev pub advanced :
        Outcome → Result OpError ℤ × CursorFile → Uploads → Result OpError Fields × Uploads
    advanced o (err e, c) st = (err e, with_cursors c st)
    advanced o (ok seq, c) st =
        (ok (commit_reply o (field "applied_seq" (int seq) end)), with_cursors c st)

    -- The cursor moves only where no file failed.
    unfoldable pub finish : Option ℤ → String → Outcome → Uploads → Result OpError Fields × Uploads
    finish none caller o st = (ok (commit_reply o end), st)
    finish (some upto) caller o st = elim (o.failed) [
      | [] ↦ advanced o (Cursors.advance caller upto st.cursors) st
      | _ ∷ _ ↦ (ok (commit_reply o end), st)
    ]

    -- `date` is the local date and `now` the wall clock in milliseconds.
    unfoldable pub commit : Frame → String → Uploads → Result OpError Fields × Uploads
    unfolding finish
    commit frame caller st = elim (verify_all st (ids_of frame.payload)) [
      | err e ↦ (err e, st)
      | ok batch ↦
          let (o, st') = commit_all batch (record { committed = []; failed = [] }) st in
          finish (payload_int64 frame.payload "upto_seq") caller o st'
    ]
