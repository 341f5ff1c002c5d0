-- ===== src/Store/ImportAuth/Requests.antt =====
-- The life of a request: one pending request for a pair of devices, decided once by a grant.
use nexuspouch.Base.{
  String, ℤ, List, [], ◌∷◌, ◌++◌, Bool, true, false, none, some, Option-cases, ◌≡◌, inl, inr, refl,
  arith, eq_iff, eq_refl,
}
use nexuspouch.Result.{ok, err, OpError, op_error, Result-cases}
use nexuspouch.Store.Stored.{holds}
use nexuspouch.Store.ImportAuth.{
  ImportRequest, ImportGrant, ImportFiles, load, is_pending, find_pending, new_request,
  create_request, find_request, set_status, grant, new_grant,
}

pub load-holds {ℓ} : {A : Type ℓ} (xs : List A) → load (holds xs) ≡ ok xs
unfolding load
load-holds xs = refl

module _ (old new : String) where
  find_pending-append :
      (reqs : List ImportRequest) (random : String) (now : ℤ)
      → find_pending old new reqs ≡ none
      → find_pending old new (reqs ++ new_request old new random now ∷ [])
        ≡ some (new_request old new random now)
  unfolding find_pending
  find_pending-append [] random now h = ground (arith, eq_refl old, eq_refl new, eq_refl "pending")
  find_pending-append (r ∷ reqs) random now h = ground (arith, find_pending-append reqs random now)

  -- A second request of the same device for the same other device, while the first is pending,
  -- returns the first one and changes nothing.
  pub create_request_again :
      (random random' : String) (now now' : ℤ) (files : ImportFiles) (r : ImportRequest) (b : Bool)
      → (create_request old new random now files).0 ≡ ok (r, b)
      → create_request old new random' now' (create_request old new random now files).1
        ≡ (ok (r, false), (create_request old new random now files).1)
  unfolding create_request
  create_request_again random random' now now' files r b h =
      elim (Result-cases (load files.requests)) [
        | inl (reqs, e) ↦ ground (
          arith,
          find_pending-append reqs random now,
          load-holds (reqs ++ new_request old new random now ∷ []),
        )
        | inr (x, e) ↦ ground arith
      ]

pub find_request-set_status :
    (id status : String) (reqs : List ImportRequest) (r : ImportRequest)
    → find_request id reqs ≡ some r
    → find_request id (set_status id status reqs) ≡ some (record r { status = status })
unfolding find_request set_status
find_request-set_status id status [] r h = cc
find_request-set_status id status (q ∷ reqs) r h =
    ground (arith, find_request-set_status id status reqs r)

pub find_request-id :
    (id : String) (reqs : List ImportRequest) (r : ImportRequest)
    → find_request id reqs ≡ some r
    → r.request_id ≡ id
unfolding find_request
find_request-id id [] r h = cc
find_request-id id (q ∷ reqs) r h =
    ground (arith, find_request-id id reqs r, eq_iff q.request_id id)

-- What a successful `grant` has found and written.
pub record Granted (id random : String) (now : ℤ) (files : ImportFiles) (g : ImportGrant)
    : Type 0 where
  pub reqs : List ImportRequest
  pub request : ImportRequest
  pub old_grants : List ImportGrant
  pub loaded : load files.requests ≡ ok reqs
  pub found : find_request id reqs ≡ some request
  pub pending : is_pending request ≡ true
  pub is_new : g ≡ new_grant request random now
  pub loaded_grants : load files.grants ≡ ok old_grants
  pub written : (grant id random now files).1 ≡ record files {
    grants = holds (old_grants ++ g ∷ []);
    requests = holds (set_status id "granted" reqs);
  }

module _ (id random : String) (now : ℤ) (files : ImportFiles) where
  grant_found_failed :
      (reqs : List ImportRequest) (r : ImportRequest) (x : OpError)
      → load files.requests ≡ ok reqs
      → find_request id reqs ≡ some r
      → (grant id random now files).0 ≡ err x
      → (grant id random now files).1 ≡ files
  unfolding grant
  grant_found_failed reqs r x e f h = elim (Result-cases (load files.grants)) [
    | inl (gs, k) ↦ ground arith
    | inr (y, k) ↦ ground arith
  ]

  -- A grant that fails changes nothing.
  pub grant_failed :
      (x : OpError) → (grant id random now files).0 ≡ err x → (grant id random now files).1 ≡ files
  unfolding grant
  grant_failed x h = elim (Result-cases (load files.requests)) [
    | inl (reqs, e) ↦ elim (Option-cases (find_request id reqs)) [
      | inl n ↦ ground arith
      | inr (r, f) ↦ grant_found_failed reqs r x e f h
    ]
    | inr (y, k) ↦ ground arith
  ]

module _ (id random : String) (now : ℤ) (files : ImportFiles) (g : ImportGrant) where
  grant_found_sound :
      (reqs : List ImportRequest) (r : ImportRequest)
      → load files.requests ≡ ok reqs
      → find_request id reqs ≡ some r
      → (grant id random now files).0 ≡ ok g
      → Granted id random now files g
  unfolding grant
  grant_found_sound reqs r e f h = elim (Result-cases (load files.grants)) [
    | inl (gs, k) ↦ record {
      reqs = reqs;
      request = r;
      old_grants = gs;
      loaded = e;
      found = f;
      pending = ground arith;
      is_new = ground arith;
      loaded_grants = k;
      written = ground arith;
    }
    | inr (x, k) ↦ absurd (ground arith)
  ]

  -- A grant answers a pending request and names its devices, the two private spaces and the time of
  -- the decision; the request is marked as granted and the grant is added to those issued.
  pub grant_sound : (grant id random now files).0 ≡ ok g → Granted id random now files g
  unfolding grant
  grant_sound h = elim (Result-cases (load files.requests)) [
    | inl (reqs, e) ↦ elim (Option-cases (find_request id reqs)) [
      | inl n ↦ absurd (ground arith)
      | inr (r, f) ↦ grant_found_sound reqs r e f h
    ]
    | inr (x, k) ↦ absurd (ground arith)
  ]

  -- A request is granted once: a second grant of it fails and changes nothing.
  pub grant_again :
      (random' : String) (now' : ℤ)
      → (grant id random now files).0 ≡ ok g
      → grant id random' now' (grant id random now files).1
        ≡ (err (op_error "bad_op" "request already granted"), (grant id random now files).1)
  unfolding grant
  grant_again random' now' h =
      let w = grant_sound h in
      rw w.written (
        ground (
          arith,
          load-holds (set_status id "granted" w.reqs),
          find_request-set_status id "granted" w.reqs w.request w.found,
        ))
