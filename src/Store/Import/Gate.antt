-- ===== src/Store/Import/Gate.antt =====
-- Who may read a directory: `require_import_grant` of src/store/import.rs behind `check_acl`.
use nexuspouch.Base.{
  String, ℕ, ℤ, ◌<◌, true, false, some, ◌≡◌, ◌≢◌, ◌⊎◌, ◌↔◌, inl, inr, arith, eq_iff,
}
use nexuspouch.Base.Dict
use nexuspouch.Base.Json.{str_or_empty}
use nexuspouch.Result.{ok, Result-cases}
use nexuspouch.Protocol.{Frame, space_of, device_of, payload_bool, shared_readable}
use nexuspouch.Protocol.Acl.{is_empty_iff}
use nexuspouch.Store.ImportAuth.{ImportFiles, validate}
use nexuspouch.Store.Seeds.{Seeds, is_seed_authorized_iff}
use nexuspouch.Store.Import.{require_import_grant, check_grant}

check_grant_iff :
    (id device caller space : String) (now : ℤ) (files : ImportFiles)
    → (check_grant id device caller space now files ≡ ok tt)
      ↔ ((id ≢ "") × (validate id device caller space now files ≡ ok true))
unfolding check_grant
check_grant_iff id device caller space now files =
    elim (Result-cases (validate id device caller space now files)) [
      | inl (b, e) ↦ ground (arith, is_empty_iff id)
      | inr (x, e) ↦ ground (arith, is_empty_iff id)
    ]

-- A live authorisation to seed.
abbrev pub MaySeed : String → ℕ → Seeds → Type 0
MaySeed caller instant seeds = (exp : ℕ) × (Dict.lookup caller seeds ≡ some exp) × (instant < exp)

-- The caller's own directory or a shared space; under the seed flag, a live authorisation to seed;
-- and otherwise a grant that is valid for just this device and space.
abbrev pub MayRead : Frame → String → ℤ → ℕ → ImportFiles → Seeds → Type 0
MayRead f caller now instant files seeds =
    (device_of f ≡ "")
    ⊎ (device_of f ≡ caller)
    ⊎ (shared_readable (space_of f) ≡ true)
    ⊎ ((payload_bool f "seed" ≡ true) × MaySeed caller instant seeds)
    ⊎ ((payload_bool f "seed" ≡ false)
        × (str_or_empty "grant" f.payload ≢ "")
        × (validate (str_or_empty "grant" f.payload) (device_of f) caller (space_of f) now files
            ≡ ok true))

module _ (f : Frame) (caller : String) (now : ℤ) (instant : ℕ) (files : ImportFiles)
    (seeds : Seeds) where
  -- `require_import_grant` lets a frame through exactly when its sender may read what it names.
  pub require_import_grant_iff :
      ((require_import_grant f caller now instant files seeds).0 ≡ ok tt)
      ↔ MayRead f caller now instant files seeds
  unfolding require_import_grant
  require_import_grant_iff = ground (
    arith,
    is_empty_iff (device_of f),
    eq_iff (device_of f) caller,
    is_seed_authorized_iff caller instant seeds,
    check_grant_iff (str_or_empty "grant" f.payload) (device_of f) caller (space_of f) now files,
  )
