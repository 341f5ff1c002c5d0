-- ===== src/Store/Browse.antt =====
-- src/store/browse.rs: reading, listing, deleting and recycling. This file has what the handlers
-- share; each group of handlers stands in a child module.
pub mod Read
pub mod Walk
pub mod Size
pub mod Prune
pub mod Recycle
pub mod Delete
pub mod Restore
use nexuspouch.Base.{
  String, ℕ, ℤ, pos, ◌+◌, ◌*◌, ◌-◌, negsuc, Option, none, some, is_empty, length, if◌then◌else◌,
}
use nexuspouch.Base.Json.{Fields, unwrap_or, str_or_empty}
use nexuspouch.Result.{Result, OpError, ◌>>◌}
use nexuspouch.Protocol.{Frame, device_of, space_of}
use nexuspouch.Files.{Node, file, dir, symlink, FilePath}
use nexuspouch.Store.Externals.{Externals}
use nexuspouch.Store.Import.{require_import_grant}
use nexuspouch.Store.Local.{Local, Moment, now_ms, with_seeds}

-- The device of a message, or the caller where it names none.
unfoldable pub device_or_caller : Frame → String → String
device_or_caller frame caller = if is_empty (device_of frame) then caller else device_of frame

abbrev pub path_of : Frame → String
path_of frame = str_or_empty "path" frame.payload

-- The check that every read starts with; where it fails nothing is answered.
unfoldable pub gated :
    Frame → String → Moment → Local → Result OpError Fields → Result OpError Fields × Local
gated frame caller at st reply =
    let (allowed, seeds) =
      require_import_grant frame caller (now_ms at) at.instant st.imports st.seeds in
    (do allowed; reply, with_seeds seeds st)

module _ (ext : Externals) where
  abbrev pub mtime_ms : FilePath → Node → ℤ
  mtime_ms path (file bytes mtime) = pos mtime
  mtime_ms path _ = pos ((ext.link_stat path).1)

  -- A link is not followed, so that it cannot be opened.
  abbrev pub file_sha : Node → String × ℤ
  file_sha (file bytes mtime) = (ext.sha256_hex bytes, pos (length bytes))
  file_sha _ = ("", pos 0)
