-- ===== src/Store/Dispatch.antt =====
-- `Local::handle` of src/store/mod.rs: what every message of a peer goes through.
pub mod Guards
pub mod Kept
pub mod Refines
use nexuspouch.Base.{
  String, ℕ, ℤ, pos, List, [], ◌∷◌, ◌++◌, Bool, true, false, not, Option, none, some, if◌then◌else◌,
}
use nexuspouch.Base.Json.{Fields}
use nexuspouch.Result.{Result, ok, err, OpError, op_error, ◌>>=◌}
use nexuspouch.Protocol.{
  Frame, Op, parse_op, check_acl, AclVerdict, allow, deny_untrusted, deny_acl, deny_bad_op,
  deny_bad_path, list, meta, read, write_begin, write_chunk, commit, delete, stats, recycle_list,
  recycle_restore, recycle_empty, import_request, import_pending, import_grant, import_reject,
  import_grants, sync_hello, sync_cursors, pointer_query, pointer_apply, migrate, unknown,
}
use nexuspouch.Files.{Node}
use nexuspouch.Store.Cursors
use nexuspouch.Store.Import
use nexuspouch.Store.Master
use nexuspouch.Store.Master.{PointerFile, require_master}
use nexuspouch.Store.ImportAuth.{ImportFiles}
use nexuspouch.Store.Seeds.{authorize_seed}
use nexuspouch.Store.Externals.{Externals}
use nexuspouch.Store.Local.{
  Local, Moment, now_ms, with_disk, with_tree, with_pointer, with_imports, with_seeds,
}
use nexuspouch.Store.Paths.{Place}
use nexuspouch.Store.Write.{Uploads}
use nexuspouch.Store.Write.Begin
use nexuspouch.Store.Write.Chunk
use nexuspouch.Store.Write.Commit
use nexuspouch.Store.Browse.Read
use nexuspouch.Store.Browse.Walk
use nexuspouch.Store.Browse.Size
use nexuspouch.Store.Browse.Recycle
use nexuspouch.Store.Browse.Delete
use nexuspouch.Store.Browse.Restore

-- The operations that only the master carries out.
unfoldable pub needs_master_fence : Op → Bool
needs_master_fence write_begin = true
needs_master_fence write_chunk = true
needs_master_fence commit = true
needs_master_fence delete = true
needs_master_fence sync_hello = true
needs_master_fence _ = false

unfoldable pub acl_code : AclVerdict → String
acl_code deny_untrusted = "untrusted"
acl_code deny_acl = "acl_denied"
acl_code deny_bad_op = "bad_op"
acl_code deny_bad_path = "bad_path"
acl_code allow = "internal"

-- `AclVerdict::as_str`
unfoldable pub verdict_text : AclVerdict → String
verdict_text allow = "allow"
verdict_text deny_untrusted = "denyUntrusted"
verdict_text deny_acl = "denyAcl"
verdict_text deny_bad_op = "denyBadOp"
verdict_text deny_bad_path = "denyBadPath"

unfoldable pub refused : AclVerdict → OpError
refused v = op_error (acl_code v) (verdict_text v)

abbrev Answer : Type 0
Answer = Result OpError Fields × Local

abbrev on_disk : Local → Result OpError Fields × Uploads → Answer
on_disk st (r, d) = (r, with_disk d st)

abbrev on_tree : Local → Result OpError Fields × Node → Answer
on_tree st (r, fs) = (r, with_tree fs st)

abbrev on_imports : Local → Result OpError Fields × ImportFiles → Answer
on_imports st (r, i) = (r, with_imports i st)

abbrev on_pointer : Local → Result OpError Fields × PointerFile → Answer
on_pointer st (r, p) = (r, with_pointer p st)

module _ (ext : Externals) (place : Place) where
  -- The `match` of `handle`.
  unfoldable pub dispatch : Op → Frame → String → Moment → Local → Answer
  dispatch list frame caller at st = Walk.list ext place frame caller at st
  dispatch meta frame caller at st = Read.meta ext place frame caller at st
  dispatch read frame caller at st = Read.read ext place frame caller at st
  dispatch write_begin frame caller at st =
      on_disk st (Begin.write_begin ext place frame caller at.now at.nanos st.disk)
  dispatch write_chunk frame caller at st = on_disk st (Chunk.write_chunk ext frame at.now st.disk)
  dispatch commit frame caller at st =
      on_disk st (Commit.commit ext place at.date at.now frame caller st.disk)
  dispatch delete frame caller at st = Delete.delete ext place at frame caller st
  dispatch stats frame caller at st = (Size.stats ext place st, st)
  dispatch recycle_list frame caller at st = (Recycle.recycle_list ext place st.disk.fs, st)
  dispatch recycle_restore frame caller at st =
      on_tree st (Restore.recycle_restore ext place frame at st.disk.fs)
  dispatch recycle_empty frame caller at st =
      on_tree st (Recycle.recycle_empty ext place st.disk.fs)
  dispatch import_request frame caller at st =
      on_imports st (Import.import_request frame caller at.random (now_ms at) st.imports)
  dispatch import_pending frame caller at st = (Import.import_pending st.imports, st)
  dispatch import_grant frame caller at st =
      on_imports st (Import.import_grant frame at.random (now_ms at) st.imports)
  dispatch import_reject frame caller at st = on_imports st (Import.import_reject frame st.imports)
  dispatch import_grants frame caller at st =
      (Import.import_grants frame (now_ms at) st.imports, st)
  dispatch sync_hello frame caller at st = (Cursors.sync_hello caller st.disk.cursors, st)
  dispatch sync_cursors frame caller at st = (
    Cursors.sync_cursors st.disk.cursors,
    with_seeds (authorize_seed caller at.instant st.seeds) st,
  )
  dispatch pointer_query frame caller at st = (Master.pointer_query place.device_id st.pointer, st)
  dispatch pointer_apply frame caller at st =
      on_pointer st (Master.pointer_apply place.device_id frame st.pointer)
  dispatch migrate frame caller at st =
      on_pointer st (Master.migrate place.device_id st.disk.cursors st.pointer)
  dispatch (unknown op) frame caller at st = (err (op_error "bad_op" op), st)

  unfoldable pub fence : Op → PointerFile → Result OpError (Unit {0})
  fence op pointer = if needs_master_fence op then require_master place.device_id pointer else ok tt

  abbrev fenced : Result OpError (Unit {0}) → Local → Answer → Answer
  fenced (err e) st answer = (err e, st)
  fenced (ok _) st answer = answer

  abbrev judged : AclVerdict → Local → Answer → Answer
  judged allow st answer = answer
  judged v st answer = (err (refused v), st)

  unfoldable pub handle : Frame → String → String → Bool → Moment → Local → Answer
  handle frame caller trust loopback at st =
      let op = parse_op frame.op in
      judged (check_acl frame caller trust loopback) st
        (fenced (fence op st.pointer) st (dispatch op frame caller at st))
