-- ===== src/Store/Dispatch/Guards.antt =====
-- The two guards of `handle`.
use nexuspouch.Base.{
  String, Bool, true, false, ◌≡◌, ◌≢◌, ◌⊎◌, inl, inr, refl, arith, Bool-cases, ◌∙◌,
}
use nexuspouch.Base.Json.{Fields}
use nexuspouch.Result.{Result, ok, err, OpError, Result-cases}
use nexuspouch.Protocol.{
  Frame, parse_op, check_acl, AclVerdict, allow, deny_untrusted, deny_acl, deny_bad_op,
  deny_bad_path, trust_owner,
}
use nexuspouch.Protocol.Acl.{Permits, check_acl-eq-allow_iff}
use nexuspouch.Store.Master.{require_master}
use nexuspouch.Store.Externals.{Externals}
use nexuspouch.Store.Local.{Local, Moment}
use nexuspouch.Store.Paths.{Place}
use nexuspouch.Store.Dispatch.{needs_master_fence, dispatch, fence, fenced, handle, refused}

-- What `handle` does with a message, by what it is about.
pub data Handled (ext : Externals) (place : Place) (frame : Frame) (caller trust : String)
    (loopback : Bool) (at : Moment) (st : Local) (answer : Result OpError Fields × Local)
    : Type 0 where
  -- not permitted: the verdict is the answer
  by_acl :
      (v : AclVerdict)
      → v ≢ allow
      → check_acl frame caller trust loopback ≡ v
      → answer ≡ (err (refused v), st)
      → Handled ext place frame caller trust loopback at st answer
  -- for the master only, and this node is not the master, or does not know
  by_fence :
      (e : OpError)
      → Permits frame caller loopback (parse_op frame.op)
      → needs_master_fence (parse_op frame.op) ≡ true
      → require_master place.device_id st.pointer ≡ err e
      → answer ≡ (err e, st)
      → Handled ext place frame caller trust loopback at st answer
  carried_out :
      trust ≡ trust_owner
      → Permits frame caller loopback (parse_op frame.op)
      → (needs_master_fence (parse_op frame.op) ≡ false)
        ⊎ (require_master place.device_id st.pointer ≡ ok tt)
      → answer ≡ dispatch ext place (parse_op frame.op) frame caller at st
      → Handled ext place frame caller trust loopback at st answer

AclVerdict-allow : (v : AclVerdict) → (v ≡ allow) ⊎ (v ≢ allow)
AclVerdict-allow allow = inl refl
AclVerdict-allow deny_untrusted = inr (λ e. ground arith)
AclVerdict-allow deny_acl = inr (λ e. ground arith)
AclVerdict-allow deny_bad_op = inr (λ e. ground arith)
AclVerdict-allow deny_bad_path = inr (λ e. ground arith)

module _ (ext : Externals) (place : Place) (frame : Frame) (caller trust : String) (loopback : Bool)
    (at : Moment) (st : Local) where
  abbrev Outcome : Type 0
  Outcome =
      Handled ext place frame caller trust loopback at st
        (handle ext place frame caller trust loopback at st)

  refuse : (v : AclVerdict) → v ≢ allow → check_acl frame caller trust loopback ≡ v → Outcome
  unfolding handle
  refuse allow d e = absurd (d refl)
  refuse deny_untrusted d e = Handled.by_acl deny_untrusted d e (rw (handle, e) refl)
  refuse deny_acl d e = Handled.by_acl deny_acl d e (rw (handle, e) refl)
  refuse deny_bad_op d e = Handled.by_acl deny_bad_op d e (rw (handle, e) refl)
  refuse deny_bad_path d e = Handled.by_acl deny_bad_path d e (rw (handle, e) refl)

  let_through :
      check_acl frame caller trust loopback ≡ allow
      → handle ext place frame caller trust loopback at st
        ≡ fenced ext place
            (fence ext place (parse_op frame.op) st.pointer)
            st
            (dispatch ext place (parse_op frame.op) frame caller at st)
  unfolding handle
  let_through e = rw (handle, e) refl

  pub carry_out :
      check_acl frame caller trust loopback ≡ allow
      → fence ext place (parse_op frame.op) st.pointer ≡ ok tt
      → handle ext place frame caller trust loopback at st
        ≡ dispatch ext place (parse_op frame.op) frame caller at st
  carry_out a e = let_through a ∙ rw e refl

  stop :
      (e : OpError)
      → check_acl frame caller trust loopback ≡ allow
      → fence ext place (parse_op frame.op) st.pointer ≡ err e
      → handle ext place frame caller trust loopback at st ≡ (err e, st)
  stop e a f = let_through a ∙ rw f refl

  allowed : check_acl frame caller trust loopback ≡ allow → Outcome
  unfolding fence
  allowed a =
      let (t, permits) = (check_acl-eq-allow_iff frame caller trust loopback).0 a in
      elim (Bool-cases (needs_master_fence (parse_op frame.op))) [
        | inr free ↦ Handled.carried_out t permits (inl free) (carry_out a (rw (fence, free) refl))
        | inl fenced ↦ elim (Result-cases (require_master place.device_id st.pointer)) [
          | inl (u, m) ↦ Handled.carried_out t permits (inr m) (carry_out a (rw (fence, fenced) m))
          | inr (e, m) ↦ Handled.by_fence e permits fenced m (stop e a (rw (fence, fenced) m))
        ]
      ]

  -- A message is refused with the verdict of the access check and without any change; or it is one
  -- for the master, and a node that is not the master, or cannot read who is, refuses it with that
  -- error and without any change; or its sender is an owner to whom it is permitted, the node is
  -- the master where it must be, and the operation is carried out.
  pub handle-Handled : Outcome
  handle-Handled = elim (AclVerdict-allow (check_acl frame caller trust loopback)) [
    | inl a ↦ allowed a
    | inr d ↦ refuse (check_acl frame caller trust loopback) d refl
  ]
