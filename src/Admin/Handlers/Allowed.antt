-- ===== src/Admin/Handlers/Allowed.antt =====
-- The administrator is never refused by the access check.
use nexuspouch.Base.{true, ◌≡◌, refl}
use nexuspouch.Result.{ok}
use nexuspouch.Protocol.{check_acl, parse_op, allow, trust_owner}
use nexuspouch.Store.Externals.{Externals}
use nexuspouch.Store.Local.{Local, Moment}
use nexuspouch.Store.Master.{PointerFile}
use nexuspouch.Store.Paths.{Place}
use nexuspouch.Store.Dispatch.{dispatch, fence, needs_master_fence}
use nexuspouch.Store.Dispatch.Guards.{carry_out}
use nexuspouch.Admin.Handlers.{
  Request, stats, recycle_list, recycle_empty, import_pending, master_migrate, recycle_restore,
  import_grant, import_reject, import_grants, request_frame, ask,
}

module _ (ext : Externals) (place : Place) (pointer : PointerFile) where
  abbrev Passes : Request → Type 0
  Passes r =
      (check_acl (request_frame r) place.device_id trust_owner true ≡ allow)
      × (fence ext place (parse_op ((request_frame r).op)) pointer ≡ ok tt)

  passes : (r : Request) → Passes r
  unfolding request_frame check_acl parse_op fence needs_master_fence
  passes stats = (refl, refl)
  passes recycle_list = (refl, refl)
  passes recycle_empty = (refl, refl)
  passes import_pending = (refl, refl)
  passes master_migrate = (refl, refl)
  passes (recycle_restore path) = (refl, refl)
  passes (import_grant id) = (refl, refl)
  passes (import_reject id) = (refl, refl)
  passes (import_grants role) = (refl, refl)

-- Every request of the administration interface that is one message of the store passes both guards
-- of the store, on a master and on any other node, and is carried out.
pub ask-eq-dispatch :
    (ext : Externals) (place : Place) (at : Moment) (r : Request) (st : Local)
    → ask ext place at r st
      ≡ dispatch ext place (parse_op ((request_frame r).op)) (request_frame r) place.device_id at st
unfolding ask
ask-eq-dispatch ext place at r st =
    let (a, f) = passes ext place st.pointer r in
    carry_out ext place (request_frame r) place.device_id trust_owner true at st a f
