-- ===== src/Peer/Peers/Laws.antt =====
-- What is in the file of paired devices after each operation, and how a pairing code looks.
use nexuspouch.Base.{
  String, List, [], ◌∷◌, ◌++◌, true, false, not, none, some, Option-cases, Bool-cases,
  if◌then◌else◌, ◌==◌, eq_iff, select, any, ◌≡◌, ◌↔◌, inl, inr, refl, ◌∙◌, arith,
}
use nexuspouch.Peer.Peers.{
  Peer, PeerFile, load, upsert, find_peer, get, has_fingerprint, with_endpoints, merge_endpoints,
  remove,
}

find_peer-append :
    (fp : String) (xs : List Peer) (p : Peer)
    → find_peer fp (xs ++ p ∷ []) ≡ elim (find_peer fp xs) [
      | some x ↦ some x
      | none ↦ if p.fingerprint == fp then some p else none
    ]
unfolding find_peer
find_peer-append fp [] p = ground arith
find_peer-append fp (x ∷ xs) p = ground (arith, find_peer-append fp xs p)

find_peer-select-not :
    (fp gp : String) (xs : List Peer)
    → find_peer fp (select (λ x. not (x.fingerprint == gp)) xs)
      ≡ (if gp == fp then none else find_peer fp xs)
unfolding find_peer
find_peer-select-not fp gp [] = ground arith
find_peer-select-not fp gp (x ∷ xs) = ground (
  arith,
  find_peer-select-not fp gp xs,
  eq_iff gp fp,
  eq_iff (x.fingerprint) gp,
  eq_iff (x.fingerprint) fp,
)

-- After `upsert` the peer is found under its fingerprint, and every other one as before.
pub get-upsert :
    (fp : String) (p : Peer) (file : PeerFile)
    → get fp (upsert p file) ≡ (if p.fingerprint == fp then some p else get fp file)
unfolding upsert load
get-upsert fp p file =
    find_peer-append fp (select (λ x. not (x.fingerprint == p.fingerprint)) (load file)) p
    ∙ ground (
      arith,
      find_peer-select-not fp (p.fingerprint) (load file),
      Option-cases (find_peer fp (load file)),
    )

any_iff_found :
    (fp : String) (xs : List Peer)
    → (any (has_fingerprint fp) xs ≡ true) ↔ ((p : Peer) × (find_peer fp xs ≡ some p))
unfolding find_peer
any_iff_found fp [] = (λ h. cc, λ h. absurd (ground (arith, h.1)))
any_iff_found fp (x ∷ xs) = elim (Bool-cases (has_fingerprint fp x)) [
  | inl e ↦ (λ h. (x, ground arith), λ h. ground arith)
  | inr e ↦ (
    λ h. let (p, d) = (any_iff_found fp xs).0 (ground arith) in (p, ground arith),
    λ h. let d = (any_iff_found fp xs).1 (h.0, rw e at h.1) in ground arith,
  )
]

find_peer_absent :
    (fp : String) (xs : List Peer) → any (has_fingerprint fp) xs ≡ false → find_peer fp xs ≡ none
unfolding find_peer
find_peer_absent fp [] h = refl
find_peer_absent fp (x ∷ xs) h = ground (arith, find_peer_absent fp xs)

-- `remove` tells whether the peer was there; afterwards it is not, and every other one is as before.
pub get-remove :
    (fp gp : String) (file : PeerFile)
    → (((remove gp file).0 ≡ true) ↔ ((p : Peer) × (get gp file ≡ some p)))
      × (get fp ((remove gp file).1) ≡ (if gp == fp then none else get fp file))
unfolding remove load
get-remove fp gp file = (
  any_iff_found gp (load file),
  elim (Bool-cases (any (has_fingerprint gp) (load file))) [
    | inl e ↦ rw e (find_peer-select-not fp gp (load file))
    | inr e ↦ rw e (ground (arith, find_peer_absent gp (load file) e, eq_iff gp fp))
  ],
)

find_peer-fingerprint :
    (fp : String) (xs : List Peer) (p : Peer) → find_peer fp xs ≡ some p → p.fingerprint ≡ fp
unfolding find_peer
find_peer-fingerprint fp [] p h = cc
find_peer-fingerprint fp (x ∷ xs) p h =
    ground (arith, find_peer-fingerprint fp xs p, eq_iff (x.fingerprint) fp)

-- New endpoints change those of one peer where it is known: an endpoint that is not given stays,
-- and so do the key, the name and the trust level, and every other peer.
pub get-merge_endpoints :
    (fp gp local channel : String) (file : PeerFile)
    → get fp (merge_endpoints gp local channel file) ≡ (
        if gp == fp
        then (elim (get gp file) [ some p ↦ some (with_endpoints local channel p) | none ↦ none ])
        else get fp file)
unfolding merge_endpoints
get-merge_endpoints fp gp local channel file = elim (Option-cases (get gp file)) [
  | inl e ↦ ground (arith, eq_iff gp fp)
  | inr (p, e) ↦ ground (
    arith,
    eq_iff gp fp,
    find_peer-fingerprint gp (load file) p e,
    get-upsert fp (with_endpoints local channel p) file,
  )
]
