-- ===== src/Store/Browse/Read.antt =====
-- `meta` and `read` of src/store/browse.rs.
pub mod Download
use nexuspouch.Base.{
  String, ℕ, ℤ, pos, ◌+◌, ◌^◌, List, [], Bool, true, false, not, ◌||◌, Option, none, some,
  if◌then◌else◌, ltb, eqb, length, take, drop,
}
use nexuspouch.Base.Float.{to_u64}
use nexuspouch.Base.Json
use nexuspouch.Base.Json.{Fields, end, field, int, bool, string, num}
use nexuspouch.Result.{Result, ok, err, OpError, op_error, ◌>>=◌}
use nexuspouch.Protocol.{Frame, space_of}
use nexuspouch.Files.{Node, file, dir, symlink, FilePath, find}
use nexuspouch.Store.Externals.{Externals}
use nexuspouch.Store.Local.{Local, Moment}
use nexuspouch.Store.Paths.{Place, resolve_path}
use nexuspouch.Store.Write.{max_chunk}
use nexuspouch.Store.Browse.{device_or_caller, path_of, gated, mtime_ms, file_sha}

abbrev not_found : OpError
not_found = op_error "not_found" "not found"

unfoldable pub chunk_length : ℕ → ℕ
chunk_length n = if eqb n 0 || ltb max_chunk n then max_chunk else n

module _ (ext : Externals) where
  abbrev file_meta : FilePath → Node → Fields
  file_meta path node =
      let (sha, size) = file_sha ext node in
      field "kind" (string "file") (
        field "size" (int size)
          (field "sha256" (string sha) (field "mtime" (int (mtime_ms ext path node)) end)))

  unfoldable pub meta_reply : FilePath → Option Node → Result OpError Fields
  meta_reply path none = err not_found
  meta_reply path (some (dir es)) = ok (field "kind" (string "dir") end)
  meta_reply path (some node) = ok (file_meta path node)

  -- Data, its length, and whether the end has been reached.
  abbrev pub data_reply : List ℕ → Bool → Fields
  data_reply bytes eof =
      field "data" (string (ext.base64_encode bytes))
        (field "size" (int (pos (length bytes))) (field "eof" (bool eof) end))

  abbrev nothing_reply : Fields
  nothing_reply =
      field "data" (string "") (field "size" (int (pos 0)) (field "eof" (bool true) end))

  abbrev slice : ℕ → ℕ → List ℕ → List ℕ
  slice offset n bytes = take n (drop offset bytes)

  -- To seek beyond the range of `i64` fails; a directory can be opened, and gives no bytes.
  unfoldable pub read_reply : ℕ → ℕ → Option Node → Result OpError Fields
  read_reply offset n none = err not_found
  read_reply offset n (some symlink) = err not_found
  read_reply offset n (some (dir es)) =
      ok (if ltb offset (2 ^ 63) then data_reply [] true else nothing_reply)
  read_reply offset n (some (file bytes mtime)) =
      let part = slice offset n bytes in
      ok (if ltb offset (2 ^ 63) then data_reply part (ltb (length part) n) else nothing_reply)

  module _ (place : Place) (frame : Frame) (caller : String) where
    unfoldable pub meta_of_path : Node → Result OpError Fields
    meta_of_path fs = do
      full ←
          resolve_path ext place (space_of frame) (device_or_caller frame caller) (path_of frame) fs
      meta_reply full (find full fs)

    unfoldable pub meta : Moment → Local → Result OpError Fields × Local
    meta at st = gated frame caller at st (meta_of_path st.disk.fs)

    unfoldable pub read_at : ℕ → ℕ → Node → Result OpError Fields
    read_at offset n fs = do
      full ←
          resolve_path ext place (space_of frame) (device_or_caller frame caller) (path_of frame) fs
      read_reply offset (chunk_length n) (find full fs)

    unfoldable pub read_of_path : Node → Result OpError Fields
    read_of_path fs =
        read_at (to_u64 (num ext.parse_f64 (Json.get "offset" frame.payload)))
          (to_u64 (num ext.parse_f64 (Json.get "length" frame.payload))) fs

    unfoldable pub read : Moment → Local → Result OpError Fields × Local
    read at st = gated frame caller at st (read_of_path st.disk.fs)
