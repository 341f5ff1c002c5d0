-- ===== src/Store/ImportAuth/Validate.antt =====
-- What `validate` accepts.
use mathlib.Core.Path.{subst}
use nexuspouch.Base.{
  String, ℤ, ◌≤ℤ◌, List, true, false, ◌≡◌, ◌↔◌, refl, arith, eq_iff, ◌==◌, any, Any, any_iff, sym,
  ap,
}
use nexuspouch.Result.{Result, ok, err, OpError, ◌>>=◌, ok_inj}
use nexuspouch.Store.ImportAuth.{ImportGrant, ImportFiles, load, matches, validate}

-- The grant is the named one, for these two devices, not revoked, not past its end at `now`, and it
-- covers the space.
pub record Covers (id old new space : String) (now : ℤ) (g : ImportGrant) : Type 0 where
  pub same_id : g.grant_id ≡ id
  pub same_old : g.old_device ≡ old
  pub same_new : g.new_device ≡ new
  pub not_revoked : g.revoked ≡ false
  pub in_time : now ≤ℤ g.expires_at
  pub in_spaces : Any (λ s. s ≡ space) g.spaces

module _ (id old new space : String) (now : ℤ) where
  matches_iff :
      (g : ImportGrant) → (matches id old new space now g ≡ true) ↔ Covers id old new space now g
  matches_iff g = ground (
    arith,
    eq_iff g.grant_id id,
    eq_iff g.old_device old,
    eq_iff g.new_device new,
    any_iff (λ (s : String). s == space) (λ s. s ≡ space) (λ s. eq_iff s space) g.spaces,
  )

  validate_loaded_iff :
      (r : Result OpError (List ImportGrant))
      → ((r >>= λ gs. ok (any (matches id old new space now) gs)) ≡ ok true)
        ↔ ((gs : List ImportGrant) × (r ≡ ok gs) × Any (Covers id old new space now) gs)
  validate_loaded_iff (err e) = (λ h. cc, λ (gs, h, _). cc)
  validate_loaded_iff (ok gs) =
      let same = any_iff (matches id old new space now) _ matches_iff gs in
      (
        λ h. (gs, refl, same.0 (ok_inj _ _ h)),
        λ (gs', h, covered).
            ap ok (same.1 (subst (Any (Covers id old new space now)) (sym (ok_inj _ _ h)) covered)),
      )

  -- A grant id is valid for a reading device, the device that is read, and a space, exactly when
  -- some issued grant covers these; an unreadable grant file validates nothing.
  pub validate_iff :
      (files : ImportFiles)
      → (validate id old new space now files ≡ ok true) ↔ (
          (gs : List ImportGrant) × (load files.grants ≡ ok gs)
          × Any (Covers id old new space now) gs)
  unfolding validate
  validate_iff files = validate_loaded_iff (load files.grants)
