-- ===== src/Store/Write.antt =====
-- src/store/write.rs: uploads. This file has the state and the checks that the three operations
-- share; `write_begin`, `write_chunk` and `commit` stand in a child module each.
pub mod Begin
pub mod Chunk
pub mod Commit
use Prim.Native.String.{len, ◌++◌ as ◌<>◌}
use nexuspouch.Base.{
  String, ℕ, ℤ, List, [], ◌∷◌, ◌++◌, Bool, ◌&&◌, ◌||◌, not, Option, if◌then◌else◌, is_empty,
  all_chars, leb, ltb, eqb, is_code,
}
use nexuspouch.Base.Dict.{Dict}
use nexuspouch.Result.{Result, ok, err, OpError, op_error}
use nexuspouch.Protocol.{is_ascii_alphabetic, is_lower_hex}
use nexuspouch.Files.{Node, FilePath}
use nexuspouch.Store.Cursors.{CursorFile}
use nexuspouch.Store.Paths.{Place, base_path}

-- `Upload`; an operation holds the locks `received` and `write_mu` while it runs.
pub record Upload : Type 0 where
  pub device : String
  pub space : String
  pub path : String
  pub tmp : FilePath
  pub meta_path : FilePath
  pub declared_size : ℤ
  pub declared_sha : String
  pub received : ℤ

-- What the operations on uploads change.
pub record Uploads : Type 0 where
  pub fs : Node
  pub uploads : Dict Upload
  pub cursors : CursorFile

unfoldable pub is_hex_sha256 : String → Bool
is_hex_sha256 s = eqb (len s) 64 && all_chars is_lower_hex s

abbrev is_id_char : ℕ → Bool
is_id_char c = is_ascii_alphabetic c || (leb b'0' c && leb c b'9') || eqb c b'-'

unfoldable pub check_upload_id : String → Result OpError (Unit {0})
check_upload_id id =
    if is_empty id || ltb 64 (len id) || not (all_chars is_id_char id)
    then err (op_error "bad_op" "invalid upload_id")
    else ok tt

-- `MAX_CHUNK` of src/store/mod.rs
abbrev pub max_chunk : ℕ
max_chunk = 65536

abbrev pub staging_dir : Place → String → String → FilePath
staging_dir place caller space = base_path place caller space ++ ".staging" ∷ []

abbrev pub part_path : Place → String → String → String → FilePath
part_path place caller space id = staging_dir place caller space ++ (id <> ".part") ∷ []

abbrev pub staging_meta_path : Place → String → String → String → FilePath
staging_meta_path place caller space id = staging_dir place caller space ++ (id <> ".json") ∷ []
