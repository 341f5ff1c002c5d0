-- ===== src/Store/ImportAuth/Decided.antt =====
-- A grant is valid for its day, and a later rejection of its request does not take it back.
use nexuspouch.Base.{
  String, ℤ, ◌+ℤ◌, ◌≤ℤ◌, in_i64, wrap_i64_of_fits, List, [], ◌∷◌, ◌++◌, true, some, ◌≡◌, refl,
  arith, Any, Any-append_last,
}
use nexuspouch.Result.{ok}
use nexuspouch.Store.Stored.{holds}
use nexuspouch.Store.ImportAuth.{
  ImportRequest, ImportGrant, ImportFiles, load, find_request, set_status, new_grant, grant,
  reject_all, reject, validate, grant_spaces, import_default_ttl,
}
use nexuspouch.Store.ImportAuth.Validate.{Covers, validate_iff}
use nexuspouch.Store.ImportAuth.Requests.{grant_sound, load-holds, find_request-set_status}

new_grant-Covers :
    (r : ImportRequest) (random space : String) (now later : ℤ)
    → in_i64 (now +ℤ import_default_ttl) ≡ true
    → later ≤ℤ now +ℤ import_default_ttl
    → Any (λ s. s ≡ space) grant_spaces
    → Covers
        (new_grant r random now).grant_id
        r.old_device
        r.new_device
        space
        later
        (new_grant r random now)
new_grant-Covers r random space now later fits h s = record {
  same_id = refl;
  same_old = refl;
  same_new = refl;
  not_revoked = refl;
  in_time = rw (wrap_i64_of_fits (now +ℤ import_default_ttl) fits) h;
  in_spaces = s;
}

find_request-reject_all :
    (id : String) (reqs : List ImportRequest) (r : ImportRequest)
    → find_request id reqs ≡ some r
    → find_request id (reject_all id reqs) ≡ some (record r { status = "rejected" })
unfolding find_request reject_all
find_request-reject_all id [] r h = cc
find_request-reject_all id (q ∷ reqs) r h = ground (arith, find_request-reject_all id reqs r)

reject_lem :
    (id : String) (files : ImportFiles) (reqs : List ImportRequest)
    → load files.requests ≡ ok reqs
    → (reject id files).1 ≡ record files { requests = holds (reject_all id reqs) }
unfolding reject
reject_lem id files reqs h = ground arith

module _ (id random : String) (now : ℤ) (files : ImportFiles) (g : ImportGrant)
    (granted : (grant id random now files).0 ≡ ok g) where
  -- For 24 hours, if their end is in the range of i64, the grant lets the requesting device read the two private spaces of the other.
  pub validate-grant :
      (later : ℤ) (space : String)
      → in_i64 (now +ℤ import_default_ttl) ≡ true
      → later ≤ℤ now +ℤ import_default_ttl
      → Any (λ s. s ≡ space) grant_spaces
      → validate g.grant_id g.old_device g.new_device space later (grant id random now files).1
        ≡ ok true
  validate-grant later space fits h s =
      let w = grant_sound id random now files g granted in
      (validate_iff g.grant_id g.old_device g.new_device space later _).1 (
        w.old_grants ++ g ∷ [],
        rw w.written (load-holds (w.old_grants ++ g ∷ [])),
        Any-append_last _ w.old_grants g
            (rw w.is_new (new_grant-Covers w.request random space now later fits h s)),
      )

  -- A rejection that comes after the grant marks the request as rejected, and within the 24 hours of
  -- the grant, where their end is in the range of i64, the grant still validates.
  pub validate-reject :
      (later : ℤ) (space : String)
      → in_i64 (now +ℤ import_default_ttl) ≡ true
      → later ≤ℤ now +ℤ import_default_ttl
      → Any (λ s. s ≡ space) grant_spaces
      → (reqs : List ImportRequest) × (r : ImportRequest) × (load
            (reject id (grant id random now files).1).1.requests
          ≡ ok reqs)
        × (find_request id reqs ≡ some r)
        × (r.status ≡ "rejected")
        × (validate g.grant_id g.old_device g.new_device space later
              (reject id (grant id random now files).1).1
            ≡ ok true)
  unfolding validate
  validate-reject later space fits h s =
      let w = grant_sound id random now files g granted in
      let reqs = set_status id "granted" w.reqs in
      let kept : load (grant id random now files).1.requests ≡ ok reqs =
        rw w.written (load-holds reqs) in
      let same = reject_lem id (grant id random now files).1 reqs kept in
      (
        reject_all id reqs,
        _,
        rw same (load-holds (reject_all id reqs)),
        find_request-reject_all id reqs _
            (find_request-set_status id "granted" w.reqs w.request w.found),
        refl,
        rw same (validate-grant later space fits h s),
      )
