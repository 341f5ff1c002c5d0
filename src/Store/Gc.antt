-- ===== src/Store/Gc.antt =====
-- src/store/gc.rs: what is too old is removed from the staging directories and the recycle bin.
pub mod Bin
use Prim.Native.String.{◌++◌ as ◌<>◌}
use nexuspouch.Base.{
  String, ℕ, zero, suc, ℤ, pos, negsuc, ◌+◌, ◌-◌, ◌*◌, ◌/◌, ◌+ℤ◌, ltb_ℤ, wrap_i64, List, [], ◌∷◌,
  ◌++◌, Bool, false, ◌&&◌, ◌||◌, any, Option, none, some, if◌then◌else◌, ◌==◌, eqb, is_empty,
}
use nexuspouch.Base.Dict
use nexuspouch.Base.Dict.{Dict}
use nexuspouch.Base.Json.{unwrap_or, ◌>>=?◌}
use nexuspouch.Result.{Result, ok, err, OpError}
use nexuspouch.Protocol.{is_valid_device_id}
use nexuspouch.Files
use nexuspouch.Files.{
  Node, file, dir, symlink, Entries, entry, FilePath, find, is_dir, read_file, remove_file,
  remove_dir_all,
}
use nexuspouch.Store.Externals.{Externals}
use nexuspouch.Store.Paths.{Place, io_error}
use nexuspouch.Store.Write.{Uploads}
use nexuspouch.Store.Browse.Size.{dir_size, spaces}
use nexuspouch.Store.Browse.Prune.{bin_path}

-- The part in front of an ending, where the text has it: `strip_suffix`.
unfoldable pub strip_ending : String → String → Option String
strip_ending ending String.[] = if String.[] == ending then some String.[] else none
strip_ending ending (String.◌∷◌ c s) =
    let rest = strip_ending ending s in
    if String.◌∷◌ c s == ending
    then some String.[]
    else elim rest [ none ↦ none | some a ↦ some (String.◌∷◌ c a) ]

unfoldable pub staging_session_id : String → String
staging_session_id name = elim (strip_ending ".json" name) [
  | some id ↦ id
  | none ↦ unwrap_or String.[] (strip_ending ".part" name)
]

-- What the tree does not keep of directories: when one has been modified, in milliseconds.
abbrev pub DirTimes : Type 0
DirTimes = FilePath → ℕ

-- The state of the walk: the tree, the uploads, and how many have been removed.
pub record Swept : Type 0 where
  pub disk : Uploads
  pub removed : ℕ

abbrev after_removal : Node → String → Swept → Swept
after_removal fs id s = record {
  disk = record { fs = fs; uploads = Dict.remove id s.disk.uploads; cursors = s.disk.cursors };
  removed = s.removed + 1;
}

-- `remove_dir_all(..).is_ok()`
abbrev removed_dir : FilePath → String → Swept → Swept
removed_dir path name s = elim (remove_dir_all path s.disk.fs) [
  | none ↦ s
  | some fs ↦ after_removal fs name s
]

abbrev quietly : FilePath → Node → Node
quietly path fs = unwrap_or fs (remove_file path fs)

module _ (ext : Externals) (times : DirTimes) (deadline : ℤ) where
  abbrev modified : FilePath → Option Node → ℤ
  modified path none = pos 0
  modified path (some (file bytes mtime)) = pos mtime
  modified path (some (dir es)) = pos (times path)
  modified path (some symlink) = pos ((ext.link_stat path).1)

  abbrev created_or : ℤ → Option ℤ → ℤ
  created_or fallback none = fallback
  created_or fallback (some created_ms) = if ltb_ℤ (pos 0) created_ms then created_ms else fallback

  -- When the session began: from its file, or else from the entry that has been met.
  unfoldable pub staging_created : FilePath → String → FilePath → Node → ℤ
  staging_created staging id path fs =
      created_or (modified path (find path fs))
        (read_file (staging ++ (id <> ".json") ∷ []) fs >>=? ext.decode_created)

  -- Both files of a session that is too old are removed.
  unfoldable pub sweep_session : FilePath → String → FilePath → Swept → Swept
  sweep_session staging id path s =
      let fs1 = quietly (staging ++ (id <> ".part") ∷ []) s.disk.fs in
      let fs2 = quietly (staging ++ (id <> ".json") ∷ []) fs1 in
      if ltb_ℤ (staging_created staging id path s.disk.fs) deadline
      then after_removal fs2 id s
      else s

  -- The loop over the entries of a staging directory, as they were when it was opened.
  unfoldable pub sweep_staging : FilePath → List String → Entries → Swept → Swept
  sweep_staging staging seen Files.nil s = s
  sweep_staging staging seen (entry name node es) s =
      let path = staging ++ name ∷ [] in
      let id = staging_session_id name in
      let old_dir = removed_dir path name s in
      let past_dir =
        sweep_staging staging seen es (if ltb_ℤ (pos (times path)) deadline then old_dir else s) in
      let past = sweep_staging staging seen es s in
      let swept = sweep_staging staging (id ∷ seen) es (sweep_session staging id path s) in
      if is_dir node
      then past_dir
      else if is_empty id || any (λ i. i == id) seen
      then past
      else swept

  module _ (place : Place) where
    abbrev sweep_found : FilePath → Option Node → Swept → Swept
    sweep_found staging (some (dir es)) s = sweep_staging staging [] es s
    sweep_found staging _ s = s

    unfoldable pub sweep_spaces : String → List String → Swept → Swept
    sweep_spaces device [] s = s
    sweep_spaces device (sp ∷ sps) s =
        let staging = place.root ++ device ∷ sp ∷ ".staging" ∷ [] in
        sweep_spaces device sps (sweep_found staging (find staging s.disk.fs) s)

    unfoldable pub sweep_devices : Entries → Swept → Swept
    sweep_devices Files.nil s = s
    sweep_devices (entry name node es) s =
        let swept = sweep_devices es (sweep_spaces name spaces s) in
        let past = sweep_devices es s in
        if is_dir node && is_valid_device_id name then swept else past

    -- `deadline` is the time now less the age; the root is missing, a directory, or something else.
    unfoldable pub gc_staging : Uploads → Result OpError ℕ × Uploads
    gc_staging st = elim (find place.root st.fs) [
      | none ↦ (ok 0, st)
      | some (dir es) ↦
          let s = sweep_devices es (record { disk = st; removed = 0 }) in (ok s.removed, s.disk)
      | some _ ↦ (err io_error, st)
    ]

-- An age of zero stands for the default: a day for uploads, thirty days for what is deleted.
abbrev pub staging_age : ℕ → ℕ
staging_age secs = if eqb secs 0 then 24 * 3600 else secs

abbrev pub recycle_age : ℕ → ℕ
recycle_age secs = if eqb secs 0 then 30 * 24 * 3600 else secs

-- Milliseconds since 1970, not before then.
abbrev pub staging_deadline : ℕ → ℕ → ℤ
staging_deadline now secs = pos (now - staging_age secs * 1000)

abbrev minus : ℕ → ℤ
minus zero = pos 0
minus (suc n) = negsuc n

-- `today` in days since 1970
abbrev pub recycle_cutoff : ℤ → ℕ → ℤ
recycle_cutoff today secs = today +ℤ minus (recycle_age secs / 86400)

module _ (ext : Externals) (place : Place) (cutoff : ℤ) where
  abbrev pub is_past : Option ℤ → Bool
  is_past none = false
  is_past (some day) = ltb_ℤ day cutoff

  -- The days of the bin that are over, with what was below them.
  unfoldable pub sweep_bin : Entries → ℤ → Node → ℤ × Node
  sweep_bin Files.nil purged fs = (purged, fs)
  sweep_bin (entry name node es) purged fs =
      let path = bin_path place ++ name ∷ [] in
      let swept =
        sweep_bin es (wrap_i64 (purged +ℤ dir_size ext path false fs))
          (unwrap_or fs (remove_dir_all path fs)) in
      let past = sweep_bin es purged fs in
      if is_dir node && is_past (ext.parse_date name) then swept else past

  unfoldable pub gc_recycle : Node → Result OpError ℤ × Node
  gc_recycle fs = elim (find (bin_path place) fs) [
    | none ↦ (ok (pos 0), fs)
    | some (dir es) ↦ let (purged, fs') = sweep_bin es (pos 0) fs in (ok purged, fs')
    | some _ ↦ (err io_error, fs)
  ]
