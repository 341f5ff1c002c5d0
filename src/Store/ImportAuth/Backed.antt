-- ===== src/Store/ImportAuth/Backed.antt =====
-- The operations on import files keep the requests behind the issued grants.
use nexuspouch.Base.{
  String, ℤ, ◌+ℤ◌, wrap_i64, List, [], ◌∷◌, ◌++◌, false, some, Option-cases, Bool-cases, ◌≡◌, ◌⊎◌,
  inl, inr, refl, sym, ◌∙◌, arith, ◌==◌, All, Any, Any-append_left, All-map, All-append,
}
use nexuspouch.Result.{ok, Result-cases, ok_inj}
use nexuspouch.Store.Stored.{holds}
use nexuspouch.Store.ImportAuth.{
  ImportRequest, ImportGrant, ImportFiles, load, is_pending, find_pending, new_request,
  create_request, find_request, set_status, new_grant, grant, reject_all, reject, save_received,
  grant_spaces, import_default_ttl,
}
use nexuspouch.Store.ImportAuth.Requests.{Granted, grant_sound, grant_failed, load-holds}

-- The request was made for the grant's devices, and is no longer pending.
abbrev pub Decides : ImportGrant → ImportRequest → Type 0
Decides g r = (r.old_device ≡ g.old_device) × (r.new_device ≡ g.new_device) × (is_pending r ≡ false)

-- The terms of every grant: a request behind it, no revocation, the private spaces, 24 hours.
abbrev pub Backs : List ImportRequest → ImportGrant → Type 0
Backs reqs g =
    Any (Decides g) reqs
    × (g.revoked ≡ false)
    × (g.spaces ≡ grant_spaces)
    × (g.expires_at ≡ wrap_i64 (g.issued_at +ℤ import_default_ttl))

pub record IsBacked (files : ImportFiles) : Type 0 where
  pub reqs : List ImportRequest
  pub issued : List ImportGrant
  pub loaded : load files.requests ≡ ok reqs
  pub loaded_grants : load files.grants ≡ ok issued
  pub backs : All (Backs reqs) issued

Any-set_status :
    (g : ImportGrant) (id : String) (reqs : List ImportRequest)
    → Any (Decides g) reqs
    → Any (Decides g) (set_status id "granted" reqs)
unfolding set_status
Any-set_status g id [] h = h
Any-set_status g id (r ∷ reqs) h = ground (arith, Any-set_status g id reqs)

Any-reject_all :
    (g : ImportGrant) (id : String) (reqs : List ImportRequest)
    → Any (Decides g) reqs
    → Any (Decides g) (reject_all id reqs)
unfolding reject_all
Any-reject_all g id [] h = h
Any-reject_all g id (r ∷ reqs) h = elim (Bool-cases (r.request_id == id)) [
  | inl e ↦ rw e (ground (arith, Any-reject_all g id reqs))
  | inr e ↦ rw e (ground (arith, Any-reject_all g id reqs))
]

Any-granted :
    (id random : String) (now : ℤ) (reqs : List ImportRequest) (r : ImportRequest)
    → find_request id reqs ≡ some r
    → Any (Decides (new_grant r random now)) (set_status id "granted" reqs)
unfolding find_request set_status
Any-granted id random now [] r h = cc
Any-granted id random now (q ∷ reqs) r h = ground (arith, Any-granted id random now reqs r)

create_request-cases :
    (old new random : String) (now : ℤ) (files : ImportFiles)
    → ((create_request old new random now files).1 ≡ files)
      ⊎ ((reqs : List ImportRequest) × (load files.requests ≡ ok reqs)
          × ((create_request old new random now files).1
              ≡ record files { requests = holds (reqs ++ new_request old new random now ∷ []) }))
unfolding create_request
create_request-cases old new random now files = elim (Result-cases (load files.requests)) [
  | inl (reqs, e) ↦ elim (Option-cases (find_pending old new reqs)) [
    | inl n ↦ inr (reqs, e, ground arith)
    | inr (r, f) ↦ inl (ground arith)
  ]
  | inr (x, e) ↦ inl (ground arith)
]

reject-cases :
    (id : String) (files : ImportFiles)
    → ((reject id files).1 ≡ files)
      ⊎ ((reqs : List ImportRequest) × (load files.requests ≡ ok reqs)
          × ((reject id files).1 ≡ record files { requests = holds (reject_all id reqs) }))
unfolding reject
reject-cases id files = elim (Result-cases (load files.requests)) [
  | inl (reqs, e) ↦ inr (reqs, e, ground arith)
  | inr (x, e) ↦ inl (ground arith)
]

pub grant-cases :
    (id random : String) (now : ℤ) (files : ImportFiles)
    → ((grant id random now files).1 ≡ files) ⊎ ((g : ImportGrant) × Granted id random now files g)
grant-cases id random now files = elim (Result-cases (grant id random now files).0) [
  | inl (g, e) ↦ inr (g, grant_sound id random now files g e)
  | inr (x, e) ↦ inl (grant_failed id random now files x e)
]

pub receives_keeps :
    (g : ImportGrant) (files : ImportFiles)
    → ((save_received g files).1.requests ≡ files.requests)
      × ((save_received g files).1.grants ≡ files.grants)
unfolding save_received
receives_keeps g files = ground arith

-- The invariant survives a change of the requests that keeps decisions.
change_requests :
    (s : ImportFiles) (reqs : List ImportRequest)
    → (b : IsBacked s) → ((g : ImportGrant) → Any (Decides g) b.reqs → Any (Decides g) reqs)
    → IsBacked (record s { requests = holds reqs })
change_requests s reqs b keep = record {
  reqs = reqs;
  issued = b.issued;
  loaded = load-holds reqs;
  loaded_grants = b.loaded_grants;
  backs =
      All-map (Backs b.reqs) (Backs reqs) (λ g (m, r, p, t). (keep g m, r, p, t)) b.issued b.backs;
}

pub creates-IsBacked :
    (old new random : String) (now : ℤ) (s : ImportFiles)
    → IsBacked s
    → IsBacked (create_request old new random now s).1
creates-IsBacked old new random now s b = elim (create_request-cases old new random now s) [
  | inl e ↦ rw e b
  | inr (reqs, e, w) ↦
      rw (w, ok_inj reqs b.reqs (sym e ∙ b.loaded))
        (change_requests s (b.reqs ++ new_request old new random now ∷ []) b
          (λ g m. Any-append_left (Decides g) b.reqs _ m))
]

pub rejects-IsBacked : (id : String) (s : ImportFiles) → IsBacked s → IsBacked (reject id s).1
rejects-IsBacked id s b = elim (reject-cases id s) [
  | inl e ↦ rw e b
  | inr (reqs, e, w) ↦
      rw (w, ok_inj reqs b.reqs (sym e ∙ b.loaded))
        (change_requests s (reject_all id b.reqs) b (λ g m. Any-reject_all g id b.reqs m))
]

pub Granted-IsBacked :
    (id random : String) (now : ℤ) (s : ImportFiles) (g : ImportGrant)
    → Granted id random now s g
    → IsBacked s
    → IsBacked (grant id random now s).1
Granted-IsBacked id random now s g w b =
    let same : w.reqs ≡ b.reqs = ok_inj w.reqs b.reqs (sym w.loaded ∙ b.loaded) in
    let same_gs : w.old_grants ≡ b.issued =
      ok_inj w.old_grants b.issued (sym w.loaded_grants ∙ b.loaded_grants) in
    rw (w.written) (record {
      reqs = set_status id "granted" w.reqs;
      issued = w.old_grants ++ g ∷ [];
      loaded = load-holds (set_status id "granted" w.reqs);
      loaded_grants = load-holds (w.old_grants ++ g ∷ []);
      backs =
          All-append (Backs (set_status id "granted" w.reqs)) w.old_grants (g ∷ [])
            (rw (same, same_gs)
              (All-map (Backs b.reqs) (Backs (set_status id "granted" b.reqs))
                (λ h (m, r, p, t). (Any-set_status h id b.reqs m, r, p, t)) b.issued b.backs))
            (
              rw w.is_new (Any-granted id random now w.reqs w.request w.found, refl, refl, refl),
              tt,
            );
    })
