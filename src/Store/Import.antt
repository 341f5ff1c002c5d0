-- ===== src/Store/Import.antt =====
-- The handlers of src/store/import.rs, and the gate that every read passes.
pub mod Gate
pub mod Received
use nexuspouch.Base.{
  String, ℕ, ℤ, pos, ◌+ℤ◌, wrap_i64, ltb_ℤ, List, [], ◌∷◌, Bool, true, false, not, ◌||◌, ◌&&◌,
  Option, none, some, if◌then◌else◌, ◌==◌, is_empty,
}
use nexuspouch.Base.Json
use nexuspouch.Base.Json.{
  Value, null, bool, int, string, array, object, Items, nil, cons, Fields, end, field, str_or_empty,
  unwrap_or, ◌>>=?◌, as_str, as_array, strings, any_to_i64,
}
use nexuspouch.Result.{Result, ok, err, OpError, op_error, ◌>>=◌}
use nexuspouch.Protocol.{
  Frame, space_of, device_of, payload_bool, is_valid_device_id, shared_readable,
}
use nexuspouch.Store.ImportAuth.{
  ImportRequest, ImportGrant, ImportFiles, create_request, pending_requests, grant, reject,
  validate, save_received, issued_grants, received_grants, grant_spaces, import_default_ttl,
}
use nexuspouch.Store.Seeds.{Seeds, is_seed_authorized}

abbrev denied : String → Result OpError (Unit {0})
denied msg = err (op_error "acl_denied" msg)

-- The last part of `require_import_grant`.
pub check_grant : String → String → String → String → ℤ → ImportFiles → Result OpError (Unit {0})
check_grant id device caller space now files =
    if is_empty id then denied "import grant required" else do
      valid ← validate id device caller space now files
      if valid then ok tt else denied "invalid import grant"

-- `now` is the wall clock in milliseconds and `instant` the monotonic clock.
unfoldable pub require_import_grant :
    Frame → String → ℤ → ℕ → ImportFiles → Seeds → Result OpError (Unit {0}) × Seeds
unfolding check_grant
require_import_grant frame caller now instant files seeds =
    if is_empty (device_of frame) || device_of frame == caller
    then (ok tt, seeds)
    else if shared_readable (space_of frame)
    then (ok tt, seeds)
    else if payload_bool frame "seed"
    then (let (allowed, seeds') = is_seed_authorized caller instant seeds in
        ((if allowed then ok tt else denied "seed not authorized"), seeds'))
    else (
      check_grant (str_or_empty "grant" frame.payload) (device_of frame) caller (space_of frame) now
          files,
      seeds,
    )

abbrev pub string_items : List String → Items
string_items [] = nil
string_items (s ∷ ss) = cons (string s) (string_items ss)

-- `ImportGrant::to_map`
unfoldable pub to_map : ImportGrant → Fields
to_map g = field "grant_id" (string g.grant_id) (
    field "old_device" (string g.old_device) (
      field "new_device" (string g.new_device) (
        field "spaces" (array (string_items g.spaces)) (
          field "issued_at" (int g.issued_at)
            (field "expires_at" (int g.expires_at) (field "revoked" (bool g.revoked) end))))))

unfoldable pub import_request :
    Frame → String → String → ℤ → ImportFiles → Result OpError Fields × ImportFiles
import_request frame caller random now files =
    let (r, files') =
      create_request (str_or_empty "old_device" frame.payload) caller random now files in
    (
      (do
        (req, _) ← r
        ok (field "request_id" (string req.request_id) (field "status" (string req.status) end))),
      files',
    )

abbrev request_items : List ImportRequest → Items
request_items [] = nil
request_items (r ∷ rs) =
    cons
      (object (
        field "request_id" (string r.request_id) (
          field "old_device" (string r.old_device) (
            field "new_device" (string r.new_device)
              (field "requested_at" (int r.requested_at) (field "status" (string r.status) end))))))
      (request_items rs)

unfoldable pub import_pending : ImportFiles → Result OpError Fields
import_pending files = do
  pending ← pending_requests files
  ok (field "requests" (array (request_items pending)) end)

unfoldable pub import_grant : Frame → String → ℤ → ImportFiles → Result OpError Fields × ImportFiles
import_grant frame random now files =
    let id = str_or_empty "request_id" frame.payload in
    if is_empty id
    then (err (op_error "bad_op" "request_id required"), files)
    else (let (r, files') = grant id random now files in
        ((do g ← r; ok (field "grant" (object (to_map g)) end)), files'))

unfoldable pub import_reject : Frame → ImportFiles → Result OpError Fields × ImportFiles
import_reject frame files =
    let id = str_or_empty "request_id" frame.payload in
    if is_empty id
    then (err (op_error "bad_op" "request_id required"), files)
    else (let (r, files') = reject id files in
        ((do _ ← r; ok (field "rejected" (bool true) end)), files'))

abbrev grant_items : List ImportGrant → Items
grant_items [] = nil
grant_items (g ∷ gs) = cons (object (to_map g)) (grant_items gs)

unfoldable pub import_grants : Frame → ℤ → ImportFiles → Result OpError Fields
import_grants frame now files =
    let role = unwrap_or "received" (Json.get "role" frame.payload >>=? as_str) in
    do
      grants ← if role == "issued" then issued_grants now files else received_grants now files
      ok (field "grants" (array (grant_items grants)) end)

abbrev or_default : List String → List String
or_default [] = grant_spaces
or_default (s ∷ ss) = s ∷ ss

abbrev pushed_spaces : Fields → List String
pushed_spaces payload =
    or_default (unwrap_or [] (Json.get "spaces" payload >>=? as_array >>=? λ xs. some (strings xs)))

abbrev int_or_zero : String → Fields → ℤ
int_or_zero key payload = unwrap_or (pos 0) (any_to_i64 (unwrap_or null (Json.get key payload)))

-- The grant that another node pushes to this one; `own` is the node's own device id.
abbrev pub pushed_grant : String → String → Fields → ℤ → ImportGrant
pushed_grant own old payload now =
    let expires = int_or_zero "expires_at" payload in
    record {
      grant_id = str_or_empty "grant_id" payload;
      old_device = old;
      new_device = own;
      spaces = pushed_spaces payload;
      issued_at = int_or_zero "issued_at" payload;
      expires_at = if ltb_ℤ (pos 0) expires then expires else wrap_i64 (now +ℤ import_default_ttl);
      revoked = false;
    }

unfoldable pub receive_pushed_grant :
    String → String → Fields → ℤ → ImportFiles → Result OpError (Unit {0}) × ImportFiles
receive_pushed_grant own from payload now files =
    let claimed = str_or_empty "old_device" payload in
    let old = if is_valid_device_id claimed then claimed else from in
    if is_empty (str_or_empty "grant_id" payload)
    then (err (op_error "bad_op" "grant_id required"), files)
    else if not (is_valid_device_id old)
    then (err (op_error "bad_op" "invalid old_device"), files)
    else save_received (pushed_grant own old payload now) files
