-- ===== src/Store/Browse/Walk.antt =====
-- `list`, `admin_list` and `walk_files` of src/store/browse.rs.
pub mod Reference
use Prim.Native.String.{◌++◌ as ◌<>◌}
use nexuspouch.Base.{
  String, ℕ, ℤ, pos, ◌-◌, ◌^◌, List, [], ◌∷◌, ◌++◌, Bool, true, false, not, Option, none, some, map,
  if◌then◌else◌, leb, eqb, length, is_empty, join, starts_with_char, trim_start,
}
use nexuspouch.Base.Float.{to_u64}
use nexuspouch.Base.Json
use nexuspouch.Base.Json.{
  Value, Items, nil, cons, Fields, end, field, int, string, array, object, num, str_or_empty,
}
use nexuspouch.Result.{Result, ok, err, OpError, op_error, fail_if, ◌>>=◌, ◌>>◌}
use nexuspouch.Protocol.{Frame, space_of, normalize_path, slash, is_valid_device_id, is_valid_space}
use nexuspouch.Files.{Node, file, dir, symlink, Entries, entry, FilePath, find, is_dir, is_blocked}
use nexuspouch.Files
use nexuspouch.Store.Externals.{Externals}
use nexuspouch.Store.Local.{Local, Moment}
use nexuspouch.Store.Paths.{Place, resolve_path, strip_prefix, io_error}
use nexuspouch.Store.Browse.{device_or_caller, path_of, gated, mtime_ms, file_sha}

-- One entry of a listing.
pub record Listed : Type 0 where
  pub path : String
  pub size : ℤ
  pub sha256 : String
  pub mtime : ℤ

abbrev listed_value : Listed → Value
listed_value e = object (
    field "path" (string e.path) (
      field "size" (int e.size)
        (field "sha256" (string e.sha256) (field "mtime" (int e.mtime) end))))

unfoldable pub listed_items : List Listed → Items
listed_items [] = nil
listed_items (e ∷ es) = cons (listed_value e) (listed_items es)

abbrev pub listed_reply : List Listed → Fields
listed_reply es = field "entries" (array (listed_items es)) end

abbrev stripped_or_self : FilePath → Option FilePath → FilePath
stripped_or_self path none = path
stripped_or_self path (some rel) = rel

-- `path.strip_prefix(space_root).unwrap_or(&path)`, as a text
abbrev pub rel_text : FilePath → FilePath → String
rel_text root path = join slash (stripped_or_self path (strip_prefix root path))

abbrev pub is_dotted : String → Bool
is_dotted name = starts_with_char b'.' name

abbrev last_name : FilePath → String
last_name [] = ""
last_name (x ∷ []) = x
last_name (x ∷ (y ∷ path)) = last_name (y ∷ path)

-- The path of an entry of `admin_list`, from the directory that is asked for. A normalised path ends in no
-- slash.
abbrev below_base : Result String String → Listed → Listed
below_base (err e) l = l
below_base (ok base) l = record l {
  path = trim_start b'/' (base <> ("/" <> trim_start b'/' l.path));
}

module _ (ext : Externals) where
  abbrev pub entry_of : FilePath → FilePath → Node → Listed
  entry_of root path node =
      let (sha, size) = file_sha ext node in
      record {
        path = rel_text root path;
        size = size;
        sha256 = sha;
        mtime = mtime_ms ext path node;
      }

  -- `out` is what the walk has pushed so far.
  unfoldable mutual
    pub walk_files : FilePath → FilePath → ℕ → List Listed → Node → List Listed
    walk_files path root limit out (dir es) =
        let walked = walk_entries path root limit out es in
        if leb limit (length out) then out else walked
    walk_files path root limit out _ = out

    pub walk_entries : FilePath → FilePath → ℕ → List Listed → Entries → List Listed
    walk_entries path root limit out Files.nil = out
    walk_entries path root limit out (entry name node es) =
        let here = path ++ name ∷ [] in
        let inside = walk_files here root limit out node in
        let pushed = out ++ entry_of root here node ∷ [] in
        let next = if is_dotted name then out else if is_dir node then inside else pushed in
        let rest = walk_entries path root limit next es in
        if leb limit (length out) then out else rest

  -- `read_dir` of what is not there, or no directory, gives no entries.
  abbrev pub walk_found : FilePath → FilePath → ℕ → Option Node → List Listed
  walk_found path root limit none = []
  walk_found path root limit (some node) = walk_files path root limit [] node

  unfoldable pub limit_of : Fields → ℕ
  limit_of payload =
      let limit = to_u64 (num ext.parse_f64 (Json.get "limit" payload)) in
      if eqb limit 0 then 1000 else limit

  module _ (place : Place) where
    unfoldable pub list_path : Frame → String → Node → Result OpError Fields
    list_path frame caller fs =
        let device = device_or_caller frame caller in
        do
          space_root ← resolve_path ext place (space_of frame) device "" fs
          path ← resolve_path ext place (space_of frame) device (path_of frame) fs
          ok (listed_reply (walk_found path space_root (limit_of frame.payload) (find path fs)))

    unfoldable pub list : Frame → String → Moment → Local → Result OpError Fields × Local
    list frame caller at st = gated frame caller at st (list_path frame caller st.disk.fs)

    -- The path of a single file in the answer of `admin_list`.
    abbrev single_path : FilePath → String → Result String String → String
    single_path full path (ok norm) = if is_empty path then last_name full else norm
    single_path full path (err e) = if is_empty path then last_name full else path

    abbrev admin_entries : FilePath → String → Node → List Listed
    admin_entries full path (dir es) =
        let found = walk_files full full (2 ^ 64 - 1) [] (dir es) in
        if is_empty path then found else map (below_base (normalize_path path)) found
    admin_entries full path node =
        record (entry_of full full node) { path = single_path full path (normalize_path path) } ∷ []

    unfoldable pub admin_found : FilePath → String → Node → Option Node → Result OpError Fields
    admin_found full path fs none =
        if is_blocked full fs then err io_error else ok (listed_reply [])
    admin_found full path fs (some node) = ok (listed_reply (admin_entries full path node))

    unfoldable pub admin_list : String → String → String → Node → Result OpError Fields
    admin_list device space path fs = do
      fail_if (not (is_valid_device_id device)) (op_error "bad_path" "invalid device id")
      fail_if (not (is_valid_space space)) (op_error "bad_op" "invalid space")
      full ← resolve_path ext place space device path fs
      admin_found full path fs (find full fs)
