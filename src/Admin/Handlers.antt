-- ===== src/Admin/Handlers.antt =====
-- src/admin/handler.rs as far as it is about the store: each request becomes a message of the node
-- itself, from its own machine.
pub mod Allowed
use nexuspouch.Base.{
  String, ℕ, ℤ, pos, Bool, true, false, not, Option, none, some, if◌then◌else◌, ◌==◌,
}
use nexuspouch.Base.Json
use nexuspouch.Base.Json.{Fields, end, field, int, bool, string, unwrap_or}
use nexuspouch.Result.{Result, ok, err, OpError, op_error, ◌>>=◌}
use nexuspouch.Protocol.{Frame, from_parts, trust_owner}
use nexuspouch.Store.Externals.{Externals}
use nexuspouch.Store.Local.{Local, Moment, with_disk, with_tree}
use nexuspouch.Store.Paths.{Place}
use nexuspouch.Store.Dispatch.{handle}
use nexuspouch.Store.Browse.Walk
use nexuspouch.Store.Browse.Delete
use nexuspouch.Store.Maintenance
use nexuspouch.Store.Gc
use nexuspouch.Store.Gc.{DirTimes}
use nexuspouch.Files.{Node}
use nexuspouch.Store.Write.{Uploads}

abbrev Answer : Type 0
Answer = Result OpError Fields × Local

abbrev with_reply : (Fields → Fields) → Answer → Answer
with_reply f (ok m, st) = (ok (f m), st)
with_reply f (err e, st) = (err e, st)

-- The requests that are one message of the store.
pub data Request : Type 0 where
  stats recycle_list recycle_empty import_pending master_migrate : Request
  recycle_restore : String → Request
  import_grant : String → Request
  import_reject : String → Request
  import_grants : Option String → Request

unfoldable pub request_frame : Request → Frame
request_frame stats = from_parts "stats" end
request_frame recycle_list = from_parts "recycle.list" end
request_frame recycle_empty = from_parts "recycle.empty" end
request_frame import_pending = from_parts "import.pending" end
request_frame master_migrate = from_parts "master.migrate" end
request_frame (recycle_restore path) =
    from_parts "recycle.restore" (field "recycle_path" (string path) end)
request_frame (import_grant id) = from_parts "import.grant" (field "request_id" (string id) end)
request_frame (import_reject id) = from_parts "import.reject" (field "request_id" (string id) end)
request_frame (import_grants role) =
    from_parts "import.grants" (field "role" (string (unwrap_or "issued" role)) end)

module _ (ext : Externals) (place : Place) (at : Moment) where
  unfoldable pub ask : Request → Local → Answer
  ask r st = handle ext place (request_frame r) place.device_id trust_owner true at st

  -- `stats` adds the node's own id to what the store answers.
  unfoldable pub admin_stats : Local → Answer
  admin_stats st = with_reply (Json.insert "self_device" (string place.device_id)) (ask stats st)

  unfoldable pub browse : Option String → Option String → Option String → Local → Answer
  browse device space path st =
      let d = unwrap_or place.device_id device in
      let s = unwrap_or "files" space in
      let p = unwrap_or "" path in
      with_reply
        (λ m.
          Json.insert "path" (string p)
            (Json.insert "space" (string s) (Json.insert "device" (string d) m)))
        (Walk.admin_list ext place d s p st.disk.fs, st)

  unfoldable pub browse_delete : Option String → String → String → Local → Answer
  browse_delete device space path st =
      let (r, fs) =
        Delete.admin_delete ext place at (unwrap_or place.device_id device) space path st.disk.fs in
      (r, with_tree fs st)

  unfoldable pub device_purge : String → Local → Answer
  device_purge device st =
      let (r, st') = Maintenance.purge_device ext place device place.device_id st in
      (
        (do
          freed ← r
          ok (
              field "ok" (bool true)
                (field "device_id" (string device) (field "purged_bytes" (int freed) end)))),
        st',
      )

  unfoldable pub device_wipe_self : String → Local → Answer
  device_wipe_self confirm st =
      let (r, fs) = Maintenance.wipe_self ext place place.device_id st.disk.fs in
      if not (confirm == "DELETE")
      then (err (op_error "bad_op" "confirm must be \"DELETE\""), st)
      else (
        (do
          freed ← r
          ok (
              field "ok" (bool true) (
                field "device_id" (string place.device_id) (field "freed_bytes" (int freed) end)))),
        with_tree fs st,
      )

  abbrev swept : ℕ → Result OpError ℤ × Node → Local → Answer
  swept n (r, fs) st = (
    (do
      purged ← r
      ok (
          field "ok" (bool true)
            (field "staging_removed" (int (pos n)) (field "recycle_bytes" (int purged) end)))),
    with_tree fs st,
  )

  abbrev staging_swept : ℤ → Result OpError ℕ × Uploads → Local → Answer
  staging_swept cutoff (err e, disk) st = (err e, with_disk disk st)
  staging_swept cutoff (ok n, disk) st =
      swept n (Gc.gc_recycle ext place cutoff disk.fs) (with_disk disk st)

  -- Both collections with their default ages; `today` is the local date in days since 1970.
  unfoldable pub gc : DirTimes → ℤ → Local → Answer
  gc times today st =
      staging_swept (Gc.recycle_cutoff today 0)
        (Gc.gc_staging ext times (Gc.staging_deadline at.now 0) place st.disk) st
