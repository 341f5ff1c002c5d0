-- ===== src/Store/Write/Begin.antt =====
-- `write_begin` of src/store/write.rs.
pub mod Outcome
pub mod Same
use Prim.Native.String.{◌++◌ as ◌<>◌}
use nexuspouch.Base.{
  String, ℕ, ℤ, pos, ltb_ℤ, eqb_ℤ, [], Bool, ◌&&◌, ◌||◌, not, Option, none, some, if◌then◌else◌,
  is_empty, ◌==◌, length,
}
use nexuspouch.Base.Dict
use nexuspouch.Base.Decimal.{show_ℕ}
use nexuspouch.Base.Float.{to_i64}
use nexuspouch.Base.Json
use nexuspouch.Base.Json.{
  Fields, end, field, int, string, str_or_empty, num, as_str, ◌>>=?◌, unwrap_or,
}
use nexuspouch.Result.{Result, ok, err, OpError, op_error, fail_if, map_err, ◌>>=◌, ◌>>◌}
use nexuspouch.Protocol.{Frame, normalize_path, space_of}
use nexuspouch.Files.{Node, file, FilePath, find, alter, create_dir_all, read_file, write_file}
use nexuspouch.Store.Externals.{Externals, StagingMeta}
use nexuspouch.Store.Paths.{io_error, Place}
use nexuspouch.Store.Write.{
  Upload, Uploads, is_hex_sha256, check_upload_id, staging_dir, part_path, staging_meta_path,
}

-- What `write_begin` reads from the message.
pub record Declared : Type 0 where
  pub norm : String
  pub size : ℤ
  pub sha : String
  pub id : String

abbrev declared : String → ℤ → String → String → Declared
declared n s h i = record { norm = n; size = s; sha = h; id = i }

abbrev pub staging_meta : String → ℤ → String → ℕ → StagingMeta
staging_meta p s h now = record { path = p; size = s; sha256 = h; created_ms = pos now }

abbrev pub upload : String → String → Declared → FilePath → FilePath → String → ℤ → Upload
upload caller space d part meta sha received = record {
  device = caller;
  space = space;
  path = d.norm;
  tmp = part;
  meta_path = meta;
  declared_size = d.size;
  declared_sha = sha;
  received = received;
}

abbrev pub begin_reply : String → ℤ → Fields
begin_reply id received = field "upload_id" (string id) (field "received" (int received) end)

-- An earlier upload under the id, for another file.
abbrev pub conflicts : StagingMeta → Declared → Bool
conflicts meta d =
    not (meta.path == d.norm)
    || not (eqb_ℤ meta.size d.size)
    || (not (is_empty d.sha) && not (is_empty meta.sha256) && not (meta.sha256 == d.sha))

-- `fs::metadata(&part_path).map(|m| m.len() as i64).unwrap_or(0)`
abbrev pub part_length : FilePath → Node → ℤ
part_length part fs = pos (length (unwrap_or [] (read_file part fs)))

-- `OpenOptions::new().create(true).write(true).open(..)`: what is there is not truncated.
abbrev created : FilePath → ℕ → Node → Option Node → Option Node
created path now fs none = alter path (some (file [] now)) fs
created path now fs (some (file bytes mtime)) = some fs
created path now fs (some _) = none

unfoldable pub open_create : FilePath → ℕ → Node → Option Node
open_create path now fs = created path now fs (find path fs)

module _ (ext : Externals) (place : Place) where
  -- The guards of `write_begin`, in the order of the code; `nanos` is the wall clock.
  unfoldable pub read_declared : Fields → ℕ → Result OpError Declared
  read_declared payload nanos =
      let size = to_i64 (num ext.parse_f64 (Json.get "size" payload)) in
      let sha = str_or_empty "sha256" payload in
      let id = unwrap_or ("u-" <> show_ℕ nanos) (Json.get "upload_id" payload >>=? as_str) in
      do
        norm ← map_err (op_error "bad_path") (normalize_path (str_or_empty "path" payload))
        fail_if (ltb_ℤ size (pos 0)) (op_error "bad_op" "negative size")
        fail_if (is_empty sha || not (is_hex_sha256 sha)) (op_error "bad_op" "invalid sha256")
        check_upload_id id
        ok (declared norm size sha id)

  unfoldable pub old_meta : FilePath → Node → Option StagingMeta
  old_meta meta fs = read_file meta fs >>=? ext.decode_staging

  abbrev registered : Uploads → Node → String → Upload → Result OpError Fields × Uploads
  registered st fs id u = (
    ok (begin_reply id u.received),
    record { fs = fs; uploads = Dict.insert id u st.uploads; cursors = st.cursors },
  )

  abbrev failed : Uploads → Node → OpError → Result OpError Fields × Uploads
  failed st fs e = (err e, record { fs = fs; uploads = st.uploads; cursors = st.cursors })

  -- The staging file is there: the upload goes on behind what has arrived.
  begin_again :
      String → String → Declared → StagingMeta → Uploads → Node → Result OpError Fields × Uploads
  begin_again caller space d meta st fs =
      let part = part_path place caller space d.id in
      if conflicts meta d
      then failed st fs (op_error "staging_state" "upload_id conflicts with existing")
      else registered st fs d.id (
          upload caller space d part (staging_meta_path place caller space d.id) meta.sha256
            (part_length part fs))

  begin_new : String → String → Declared → ℕ → Uploads → Node → Result OpError Fields × Uploads
  begin_new caller space d now st fs =
      let part = part_path place caller space d.id in
      let meta = staging_meta_path place caller space d.id in
      elim (write_file meta (ext.encode_staging (staging_meta d.norm d.size d.sha now)) now fs) [
        | none ↦ failed st fs io_error
        | some fs1 ↦ elim (open_create part now fs1) [
          | none ↦ failed st fs1 io_error
          | some fs2 ↦ registered st fs2 d.id (upload caller space d part meta d.sha (pos 0))
        ]
      ]

  -- `now` and `nanos` are the wall clock in milliseconds and in nanoseconds.
  unfoldable pub write_begin : Frame → String → ℕ → ℕ → Uploads → Result OpError Fields × Uploads
  unfolding begin_again begin_new
  write_begin frame caller now nanos st = elim (read_declared frame.payload nanos) [
    | err e ↦ (err e, st)
    | ok d ↦ elim (create_dir_all (staging_dir place caller (space_of frame)) st.fs) [
      | none ↦ failed st st.fs io_error
      | some fs ↦ elim (old_meta (staging_meta_path place caller (space_of frame) d.id) fs) [
        | some meta ↦ begin_again caller (space_of frame) d meta st fs
        | none ↦ begin_new caller (space_of frame) d now st fs
      ]
    ]
  ]
