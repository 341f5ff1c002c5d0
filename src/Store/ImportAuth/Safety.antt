-- ===== src/Store/ImportAuth/Safety.antt =====
-- Every issued grant answers a request that its device has made and the owner has decided.
use mathlib.Core.Path.{subst}
use nexuspouch.Base.{
  String, ℤ, List, [], ◌∷◌, true, false, ◌≡◌, inl, inr, refl, sym, ap, ◌∙◌, Any, Any-map, Any-with,
}
use nexuspouch.Result.{ok, ok_inj}
use nexuspouch.Store.Stored.{absent}
use nexuspouch.Store.ImportAuth.{
  ImportRequest, ImportGrant, ImportFiles, load, is_pending, create_request, grant, reject,
  save_received, validate, grant_spaces,
}
use nexuspouch.Store.ImportAuth.Validate.{Covers, validate_iff}
use nexuspouch.Store.ImportAuth.Backed.{
  Decides, Backs, IsBacked, grant-cases, receives_keeps, creates-IsBacked, rejects-IsBacked,
  Granted-IsBacked,
}

-- One operation on the import files, successful or not.
pub data Step (s t : ImportFiles) : Type 0 where
  creates :
      (old new random : String) (now : ℤ) → t ≡ (create_request old new random now s).1 → Step s t
  grants : (id random : String) (now : ℤ) → t ≡ (grant id random now s).1 → Step s t
  rejects : (id : String) → t ≡ (reject id s).1 → Step s t
  receives : (g : ImportGrant) → t ≡ (save_received g s).1 → Step s t

abbrev pub empty : ImportFiles
empty = record { requests = absent; grants = absent; received = absent }

-- The states of a node that began with no import files.
pub data Reach : ImportFiles → Type 0 where
  here : (t : ImportFiles) → t ≡ empty → Reach t
  next : (s t : ImportFiles) → Reach s → Step s t → Reach t

Step-IsBacked : (s t : ImportFiles) → Step s t → IsBacked s → IsBacked t
Step-IsBacked s t (creates old new random now e) b = rw e (creates-IsBacked old new random now s b)
Step-IsBacked s t (rejects id e) b = rw e (rejects-IsBacked id s b)
Step-IsBacked s t (grants id random now e) b = rw e (elim (grant-cases id random now s) [
  | inl same ↦ rw same b
  | inr (g, w) ↦ Granted-IsBacked id random now s g w b
])
Step-IsBacked s t (receives g e) b = rw e (record {
  reqs = b.reqs;
  issued = b.issued;
  loaded = ap load (receives_keeps g s).0 ∙ b.loaded;
  loaded_grants = ap load (receives_keeps g s).1 ∙ b.loaded_grants;
  backs = b.backs;
})

empty-IsBacked : IsBacked empty
unfolding load
empty-IsBacked = record { reqs = []; issued = []; loaded = refl; loaded_grants = refl; backs = tt }

-- In every reachable state each issued grant answers a decided request of its own devices, is not
-- revoked, covers exactly the two private spaces, and ends 24 hours after it was issued.
pub Reach-IsBacked : (t : ImportFiles) → Reach t → IsBacked t
Reach-IsBacked t (here _ e) = rw e empty-IsBacked
Reach-IsBacked t (next s _ r st) = Step-IsBacked s t st (Reach-IsBacked s r)

Backs-Covers :
    (id old new space : String) (now : ℤ) (reqs : List ImportRequest) (g : ImportGrant)
    → Covers id old new space now g × Backs reqs g
    → Any (λ r. (r.old_device ≡ old) × (r.new_device ≡ new) × (is_pending r ≡ false)) reqs
      × Any (λ s. s ≡ space) grant_spaces
Backs-Covers id old new space now reqs g (c, (m, r, p, t)) = (
  Any-map (Decides g) _ (λ q (a, b, d). (a ∙ c.same_old, b ∙ c.same_new, d)) reqs m,
  subst (Any (λ s. s ≡ space)) p c.in_spaces,
)

Any-Backs-Covers :
    (id old new space : String) (now : ℤ) (reqs : List ImportRequest) (gs : List ImportGrant)
    → Any (λ g. Covers id old new space now g × Backs reqs g) gs
    → Any (λ r. (r.old_device ≡ old) × (r.new_device ≡ new) × (is_pending r ≡ false)) reqs
      × Any (λ s. s ≡ space) grant_spaces
Any-Backs-Covers id old new space now reqs [] h = absurd h
Any-Backs-Covers id old new space now reqs (g ∷ gs) (inl h) =
    Backs-Covers id old new space now reqs g h
Any-Backs-Covers id old new space now reqs (g ∷ gs) (inr h) =
    Any-Backs-Covers id old new space now reqs gs h

-- In every reachable state a grant id validates only for a space of the private two, and only if
-- the reading device itself has requested the import from just the device that is read and that
-- request has been decided.
pub validate-needs_request :
    (t : ImportFiles) (id old new space : String) (now : ℤ)
    → Reach t
    → validate id old new space now t ≡ ok true
    → (reqs : List ImportRequest) × (load t.requests ≡ ok reqs)
      × Any (λ r. (r.old_device ≡ old) × (r.new_device ≡ new) × (is_pending r ≡ false)) reqs
      × Any (λ s. s ≡ space) grant_spaces
validate-needs_request t id old new space now reached valid =
    let b = Reach-IsBacked t reached in
    let (gs, e, covered) = (validate_iff id old new space now t).0 valid in
    let same : gs ≡ b.issued = ok_inj gs b.issued (sym e ∙ b.loaded_grants) in
    let both =
      Any-with (Covers id old new space now) (Backs b.reqs) b.issued b.backs
        (subst (Any (Covers id old new space now)) same covered) in
    let (m, s) = Any-Backs-Covers id old new space now b.reqs b.issued both in
    (b.reqs, b.loaded, m, s)
