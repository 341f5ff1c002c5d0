-- ===== src/Store/Import/Received.antt =====
-- Grants that other nodes push to this one.
use nexuspouch.Base.{
  List, [], ◌∷◌, ◌++◌, Bool, not, ◌≡◌, inl, inr, ◌∙◌, arith, eq_refl, ◌==◌, select, select-append,
  select-select-not,
}
use nexuspouch.Result.{ok, Result-cases}
use nexuspouch.Store.ImportAuth.{ImportGrant, ImportFiles, load, save_received}
use nexuspouch.Store.ImportAuth.Requests.{load-holds}

abbrev same_id : ImportGrant → ImportGrant → Bool
same_id g x = x.grant_id == g.grant_id

-- A received grant takes the place of all that had its id, and the others stay.
abbrev replaced : ImportGrant → List ImportGrant → List ImportGrant
replaced g received = select (λ x. not (same_id g x)) received ++ g ∷ []

select-replaced :
    (g : ImportGrant) (received : List ImportGrant)
    → select (same_id g) (replaced g received) ≡ g ∷ []
select-replaced g received =
    select-append (same_id g) (select (λ x. not (same_id g x)) received) (g ∷ [])
    ∙ ground (arith, select-select-not (same_id g) received, eq_refl g.grant_id)

-- After a grant has been saved as received, it is the only one of its id.
pub save_received_once :
    (g : ImportGrant) (files : ImportFiles)
    → (save_received g files).0 ≡ ok tt
    → (received : List ImportGrant) × (load (save_received g files).1.received ≡ ok received)
      × (select (λ x. x.grant_id == g.grant_id) received ≡ g ∷ [])
unfolding save_received
save_received_once g files h = elim (Result-cases (load files.received)) [
  | inl (received, e) ↦ (
    replaced g received,
    ground (arith, load-holds (replaced g received)),
    select-replaced g received,
  )
  | inr (x, e) ↦ absurd (ground arith)
]
