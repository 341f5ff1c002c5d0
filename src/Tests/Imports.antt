-- ===== src/Tests/Imports.antt =====
-- Imports of private spaces.
use nexuspouch.Base.{
  String, pos, ◌+ℤ◌, ◌≤ℤ◌, in_i64, List, [], Any, some, true, false, ◌≡◌, ◌↔◌, inl, refl, arith,
}
use nexuspouch.Base.Json.{end, field, string}
use nexuspouch.Result.{ok}
use nexuspouch.Protocol.{Frame, from_parts}
use nexuspouch.Store.ImportAuth.{
  ImportRequest, ImportGrant, ImportFiles, load, is_pending, find_pending, new_request,
  create_request, find_request, grant, grant_found, reject, validate, save_received, grant_spaces,
  import_default_ttl, new_grant,
}
use nexuspouch.Store.ImportAuth.Validate.{Covers, validate_iff}
use nexuspouch.Store.ImportAuth.Decided.{validate-grant, validate-reject}
use nexuspouch.Store.ImportAuth.Backed.{IsBacked}
use nexuspouch.Store.ImportAuth.Safety.{
  creates, grants, Reach, here, next, empty, Reach-IsBacked, validate-needs_request,
}
use nexuspouch.Store.Import.{require_import_grant}
use nexuspouch.Store.Import.Gate.{MayRead, require_import_grant_iff}
use nexuspouch.Tests.World.{laptop, phone}

-- The phone asks for the laptop's private spaces.
abbrev asked : ImportRequest
asked = new_request laptop phone "1" (pos 100)

asked_files : ImportFiles
asked_files = (create_request laptop phone "1" (pos 100) empty).1

abbrev given : ImportGrant
given = new_grant asked "2" (pos 200)

create_request_done : (create_request laptop phone "1" (pos 100) empty).0 ≡ ok (asked, true)
unfolding create_request load find_pending
create_request_done = refl

abbrev id1 : String
id1 = asked.request_id

abbrev private : String
private = "backups"

grant_done : (grant id1 "2" (pos 200) asked_files).0 ≡ ok given
unfolding asked_files create_request load find_pending grant grant_found find_request
grant_done = refl

is_private : Any (λ s. s ≡ private) grant_spaces
is_private = inl refl

ends_in_range : in_i64 (pos 200 +ℤ import_default_ttl) ≡ true
unfolding ◌+ℤ◌
ends_in_range = refl

before_end : pos 5000 ≤ℤ pos 200 +ℤ import_default_ttl
unfolding ◌+ℤ◌
before_end = omega arith

validate-reject_example :
    (reqs : List ImportRequest) × (r : ImportRequest) × (load
        (reject id1 (grant id1 "2" (pos 200) asked_files).1).1.requests
      ≡ ok reqs)
    × (find_request id1 reqs ≡ some r)
    × (r.status ≡ "rejected")
    × (validate given.grant_id laptop phone private
          (pos 5000)
          (reject id1 (grant id1 "2" (pos 200) asked_files).1).1
        ≡ ok true)
validate-reject_example =
    validate-reject id1 "2" (pos 200) asked_files given grant_done (pos 5000) private ends_in_range
      before_end is_private

abbrev given_state : ImportFiles
given_state = (grant id1 "2" (pos 200) asked_files).1

reached : Reach given_state
reached =
    next asked_files given_state
      (next empty asked_files (here empty refl)
        (creates laptop phone "1" (pos 100) (unfold asked_files in refl)))
      (grants id1 "2" (pos 200) refl)

given_validates : validate given.grant_id laptop phone private (pos 5000) given_state ≡ ok true
given_validates =
    validate-grant id1 "2" (pos 200) asked_files given grant_done (pos 5000) private ends_in_range
      before_end is_private

Reach-IsBacked_example : IsBacked given_state
Reach-IsBacked_example = Reach-IsBacked given_state reached

validate-needs_request_example :
    (reqs : List ImportRequest) × (load given_state.requests ≡ ok reqs)
    × Any (λ r. (r.old_device ≡ laptop) × (r.new_device ≡ phone) × (is_pending r ≡ false)) reqs
    × Any (λ s. s ≡ private) grant_spaces
validate-needs_request_example =
    validate-needs_request given_state given.grant_id laptop phone private (pos 5000) reached
      given_validates

validate_iff_example :
    (validate given.grant_id laptop phone private (pos 5000) given_state ≡ ok true) ↔ (
      (gs : List ImportGrant) × (load given_state.grants ≡ ok gs)
      × Any (Covers given.grant_id laptop phone private (pos 5000)) gs)
validate_iff_example = validate_iff given.grant_id laptop phone private (pos 5000) given_state

abbrev read_frame : Frame
read_frame = from_parts "read" (
    field "space" (string private)
      (field "device" (string laptop) (field "grant" (string given.grant_id) end)))

require_import_grant_iff_example :
    ((require_import_grant read_frame phone (pos 5000) 10 given_state []).0 ≡ ok tt)
    ↔ MayRead read_frame phone (pos 5000) 10 given_state []
require_import_grant_iff_example =
    require_import_grant_iff read_frame phone (pos 5000) 10 given_state []

saved : (save_received given empty).0 ≡ ok tt
unfolding save_received load
saved = refl
