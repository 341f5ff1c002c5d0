-- ===== src/Store/Externals.antt =====
-- What the store takes from crates and from the operating system: SHA-256, base64, the JSON of the
-- staging files, the parsing of floats and dates and the resolution of links.
use nexuspouch.Base.{String, ℕ, ℤ, List, Option, some, ◌≡◌}
use nexuspouch.Base.Float.{F64}
use nexuspouch.Files.{Node, FilePath}

-- `StagingMeta` of src/store/write.rs
pub record StagingMeta : Type 0 where
  pub path : String
  pub size : ℤ
  pub sha256 : String
  pub created_ms : ℤ

pub record Externals : Type 0 where
  -- `hex::encode(Sha256::digest(bytes))`
  pub sha256_hex : List ℕ → String
  -- the standard alphabet, with padding
  pub base64_encode : List ℕ → String
  pub base64_decode : String → Option (List ℕ)
  -- `s.parse::<f64>()`
  pub parse_f64 : String → Option F64
  -- `serde_json` on the staging file
  pub encode_staging : StagingMeta → List ℕ
  pub decode_staging : List ℕ → Option StagingMeta
  -- `serde_json` on the same file for the `StagingMeta` of src/store/gc.rs, which has only the time
  pub decode_created : List ℕ → Option ℤ
  -- `fs::canonicalize`
  pub canonicalize : FilePath → Node → Option FilePath
  -- `chrono`'s reading of a date "%Y-%m-%d", as days since 1970-01-01
  pub parse_date : String → Option ℤ
  -- length and modification time of a symbolic link, of which the tree keeps only that it is there
  pub link_stat : FilePath → ℕ × ℕ

-- Decoding base64 undoes encoding.
pub record IsLawful (ext : Externals) : Type 0 where
  pub base64 : (bytes : List ℕ) → ext.base64_decode (ext.base64_encode bytes) ≡ some bytes
