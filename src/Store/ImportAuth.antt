-- ===== src/Store/ImportAuth.antt =====
-- `ImportAuth` of src/store/import.rs: requests to read another device's private spaces, and the
-- grants that answer them. The clock and the random ids are arguments.
pub mod Validate
pub mod Requests
pub mod Decided
pub mod Backed
pub mod Safety
use Prim.Native.String.{◌++◌ as ◌<>◌}
use nexuspouch.Base.{
  String, ℕ, ◌*◌, ℤ, pos, ◌+ℤ◌, wrap_i64, ltb_ℤ, List, [], ◌∷◌, ◌++◌, Bool, true, false, not, ◌&&◌,
  ◌||◌, Option, none, some, if◌then◌else◌, ◌==◌, any, select,
}
use nexuspouch.Result.{Result, ok, err, OpError, op_error, ◌>>=◌}
use nexuspouch.Store.Stored.{Stored, absent, broken, holds}

-- 24 hours in milliseconds
abbrev pub import_default_ttl : ℤ
import_default_ttl = pos (24 * 3600 * 1000)

abbrev pub grant_spaces : List String
grant_spaces = "backups" ∷ "attachments" ∷ []

pub record ImportRequest : Type 0 where
  pub request_id : String
  pub old_device : String
  pub new_device : String
  pub requested_at : ℤ
  pub status : String

pub record ImportGrant : Type 0 where
  pub grant_id : String
  pub old_device : String
  pub new_device : String
  pub spaces : List String
  pub issued_at : ℤ
  pub expires_at : ℤ
  pub revoked : Bool

abbrev pub expired : ImportGrant → ℤ → Bool
expired g now = ltb_ℤ g.expires_at now

-- The three files of `ImportAuth`.
pub record ImportFiles : Type 0 where
  pub requests : Stored (List ImportRequest)
  pub grants : Stored (List ImportGrant)
  pub received : Stored (List ImportGrant)

-- `load_requests`, `load_grants`, `load_received`
unfoldable pub load {ℓ} : {A : Type ℓ} → Stored (List A) → Result OpError (List A)
load absent = ok []
load broken = err (op_error "internal" "invalid JSON")
load (holds xs) = ok xs

abbrev pub is_pending : ImportRequest → Bool
is_pending r = r.status == "pending"

-- The loop of `create_request`.
unfoldable pub find_pending : String → String → List ImportRequest → Option ImportRequest
find_pending old new [] = none
find_pending old new (r ∷ reqs) =
    if r.old_device == old && r.new_device == new && is_pending r
    then some r
    else find_pending old new reqs

abbrev pub new_request : String → String → String → ℤ → ImportRequest
new_request old new random now = record {
  request_id = "ir-" <> random;
  old_device = old;
  new_device = new;
  requested_at = now;
  status = "pending";
}

unfoldable pub create_request :
    String → String → String → ℤ → ImportFiles → Result OpError (ImportRequest × Bool) × ImportFiles
create_request old new random now files = elim (load files.requests) [
  | err e ↦ (err e, files)
  | ok reqs ↦ elim (find_pending old new reqs) [
    | some r ↦ (ok (r, false), files)
    | none ↦
        let r = new_request old new random now in
        (ok (r, true), record files { requests = holds (reqs ++ r ∷ []) })
  ]
]

unfoldable pub pending_requests : ImportFiles → Result OpError (List ImportRequest)
pending_requests files = do reqs ← load files.requests; ok (select is_pending reqs)

-- `reqs.iter().position(..)`, with the request found there
unfoldable pub find_request : String → List ImportRequest → Option ImportRequest
find_request id [] = none
find_request id (r ∷ reqs) = if r.request_id == id then some r else find_request id reqs

-- `reqs[pos].status = status`
unfoldable pub set_status : String → String → List ImportRequest → List ImportRequest
set_status id status [] = []
set_status id status (r ∷ reqs) =
    let rest = set_status id status reqs in
    if r.request_id == id then record r { status = status } ∷ reqs else r ∷ rest

abbrev pub new_grant : ImportRequest → String → ℤ → ImportGrant
new_grant r random now = record {
  grant_id = "ig-" <> random;
  old_device = r.old_device;
  new_device = r.new_device;
  spaces = grant_spaces;
  issued_at = now;
  expires_at = wrap_i64 (now +ℤ import_default_ttl);
  revoked = false;
}

-- The part of `grant` behind the look-up of the request.
unfoldable pub grant_found :
    ImportRequest
    → String
    → String
    → ℤ
    → List ImportRequest
    → ImportFiles
    → Result OpError ImportGrant × ImportFiles
grant_found r id random now reqs files =
    if not (is_pending r)
    then (err (op_error "bad_op" ("request already " <> r.status)), files)
    else elim (load files.grants) [
      | err e ↦ (err e, files)
      | ok grants ↦
          let g = new_grant r random now in
          (
            ok g,
            record files {
              grants = holds (grants ++ g ∷ []);
              requests = holds (set_status id "granted" reqs);
            },
          )
    ]

unfoldable pub grant : String → String → ℤ → ImportFiles → Result OpError ImportGrant × ImportFiles
unfolding grant_found
grant id random now files = elim (load files.requests) [
  | err e ↦ (err e, files)
  | ok reqs ↦ elim (find_request id reqs) [
    | none ↦ (err (op_error "not_found" "request not found"), files)
    | some r ↦ grant_found r id random now reqs files
  ]
]

-- The loop of `reject`.
unfoldable pub reject_all : String → List ImportRequest → List ImportRequest
reject_all id [] = []
reject_all id (r ∷ reqs) =
    (if r.request_id == id then record r { status = "rejected" } else r) ∷ reject_all id reqs

unfoldable pub reject : String → ImportFiles → Result OpError (Unit {0}) × ImportFiles
reject id files = elim (load files.requests) [
  | err e ↦ (err e, files)
  | ok reqs ↦ (ok tt, record files { requests = holds (reject_all id reqs) })
]

abbrev pub matches : String → String → String → String → ℤ → ImportGrant → Bool
matches id old new space now g =
    not (not (g.grant_id == id) || not (g.old_device == old) || not (g.new_device == new))
    && not (g.revoked || expired g now)
    && any (λ s. s == space) g.spaces

unfoldable pub validate : String → String → String → String → ℤ → ImportFiles → Result OpError Bool
validate id old new space now files = do
  grants ← load files.grants
  ok (any (matches id old new space now) grants)

unfoldable pub save_received : ImportGrant → ImportFiles → Result OpError (Unit {0}) × ImportFiles
save_received g files = elim (load files.received) [
  | err e ↦ (err e, files)
  | ok received ↦ (
    ok tt,
    record files {
      received = holds (select (λ x. not (x.grant_id == g.grant_id)) received ++ g ∷ []);
    },
  )
]

abbrev pub is_live : ℤ → ImportGrant → Bool
is_live now g = not g.revoked && not (expired g now)

unfoldable pub issued_grants : ℤ → ImportFiles → Result OpError (List ImportGrant)
issued_grants now files = do grants ← load files.grants; ok (select (is_live now) grants)

unfoldable pub received_grants : ℤ → ImportFiles → Result OpError (List ImportGrant)
received_grants now files = do grants ← load files.received; ok (select (is_live now) grants)
