-- ===== src/Store/Write/Chunk.antt =====
-- `write_chunk` of src/store/write.rs.
pub mod Append
pub mod Steps
pub mod Bounds
pub mod Assembly
use Prim.Native.String.{◌++◌ as ◌<>◌}
use nexuspouch.Base.{
  String, ℕ, ℤ, pos, negsuc, ◌+ℤ◌, wrap_i64, ltb_ℤ, max_ℤ, List, Bool, ◌&&◌, Option, none, some,
  if◌then◌else◌, ltb, length,
}
use nexuspouch.Base.Dict
use nexuspouch.Base.Decimal.{show_ℤ}
use nexuspouch.Base.Float.{to_i64}
use nexuspouch.Base.Json
use nexuspouch.Base.Json.{Fields, end, field, int, str_or_empty, num}
use nexuspouch.Result.{Result, ok, err, OpError, op_error, fail_if, ok_or, ◌>>=◌, ◌>>◌}
use nexuspouch.Protocol.{Frame}
use nexuspouch.Files.{Node, file, FilePath, find, alter, write_at}
use nexuspouch.Store.Externals.{Externals}
use nexuspouch.Store.Paths.{io_error}
use nexuspouch.Store.Write.{Upload, Uploads, check_upload_id, max_chunk}

-- A chunk that has passed the guards.
pub record Accepted : Type 0 where
  pub id : String
  pub raw : List ℕ
  pub offset : ℤ
  pub upload : Upload

abbrev accepted : String → List ℕ → ℤ → Upload → Accepted
accepted i r o u = record { id = i; raw = r; offset = o; upload = u }

-- `offset + raw.len() as i64`
abbrev pub end_of : ℤ → List ℕ → ℤ
end_of offset raw = wrap_i64 (offset +ℤ pos (length raw))

abbrev pub beyond : ℤ → ℤ → OpError
beyond offset received =
    op_error "staging_state"
      ("offset " <> (show_ℤ offset <> (" beyond received " <> show_ℤ received)))

abbrev over_file : FilePath → ℕ → List ℕ → ℕ → Node → Option Node → Option Node
over_file path offset raw now fs (some (file bytes mtime)) =
    alter path (some (file (write_at offset raw bytes) now)) fs
over_file path offset raw now fs _ = none

-- Opens an existing file, seeks and writes; to seek to a negative offset (`as u64`) is an error.
unfoldable pub write_part : FilePath → ℤ → List ℕ → ℕ → Node → Option Node
write_part path (negsuc n) raw now fs = none
write_part path (pos n) raw now fs = over_file path n raw now fs (find path fs)

abbrev pub with_received : ℤ → Upload → Upload
with_received n u = record {
  device = u.device;
  space = u.space;
  path = u.path;
  tmp = u.tmp;
  meta_path = u.meta_path;
  declared_size = u.declared_size;
  declared_sha = u.declared_sha;
  received = n;
}

abbrev pub chunk_reply : ℤ → ℕ → Fields
chunk_reply received n = field "received" (int received) (field "accepted" (int (pos n)) end)

module _ (ext : Externals) where
  -- The guards of `write_chunk`, in the order of the code.
  unfoldable pub accept_chunk : Fields → Uploads → Result OpError Accepted
  accept_chunk payload st =
      let id = str_or_empty "upload_id" payload in
      let offset = to_i64 (num ext.parse_f64 (Json.get "offset" payload)) in
      do
        check_upload_id id
        raw ←
            ok_or (op_error "bad_op" "bad base64") (ext.base64_decode (str_or_empty "data" payload))
        fail_if (ltb max_chunk (length raw)) (op_error "bad_op" "chunk too large")
        u ← ok_or (op_error "staging_state" "unknown upload") (Dict.lookup id st.uploads)
        fail_if (ltb_ℤ u.received offset) (beyond offset u.received)
        fail_if (ltb_ℤ (pos 0) u.declared_size && ltb_ℤ u.declared_size (end_of offset raw))
            (op_error "bad_op" "chunk exceeds declared size")
        ok (accepted id raw offset u)

  -- The rest of `write_chunk`: the write, and the new `received`.
  unfoldable pub store_chunk : Accepted → ℕ → Uploads → Result OpError Fields × Uploads
  store_chunk c now st = elim (write_part c.upload.tmp c.offset c.raw now st.fs) [
    | none ↦ (err io_error, st)
    | some fs ↦
        let received = max_ℤ c.upload.received (end_of c.offset c.raw) in
        (
          ok (chunk_reply received (length c.raw)),
          record {
            fs = fs;
            uploads = Dict.insert c.id (with_received received c.upload) st.uploads;
            cursors = st.cursors;
          },
        )
  ]

  unfoldable pub write_chunk : Frame → ℕ → Uploads → Result OpError Fields × Uploads
  unfolding store_chunk
  write_chunk frame now st = elim (accept_chunk frame.payload st) [
    | err e ↦ (err e, st)
    | ok c ↦ store_chunk c now st
  ]
