-- ===== src/Peer/Transport/Trust.antt =====
-- What the trust level of a peer decides.
use nexuspouch.Base.{String, false, ◌≡◌, ◌≢◌, refl, ap, ◌∙◌, arith, none, ◌==◌, eq_iff, eq_refl}
use nexuspouch.Base.Json.{Fields}
use nexuspouch.Result.{err}
use nexuspouch.Protocol.{
  Frame, from_parts, trust_owner, check_acl, parse_op, pointer_apply, allow, deny_untrusted,
}
use nexuspouch.Store.Externals.{Externals}
use nexuspouch.Store.Local.{Local, Moment, with_pointer}
use nexuspouch.Store.Master
use nexuspouch.Store.Paths.{Place}
use nexuspouch.Store.Dispatch.{handle, dispatch, refused, fence, needs_master_fence}
use nexuspouch.Store.Dispatch.Guards.{carry_out}
use nexuspouch.Peer.Peers.{PeerFile, get, remove}
use nexuspouch.Peer.Peers.Laws.{get-remove}
use nexuspouch.Peer.Transport.{trust_of, trust_level_or_owner, build_store_reply, take_push}

-- A peer that has been removed, and whose connection is still open, counts as an owner, whatever
-- its trust level was before.
pub trust_of-remove :
    (fp : String) (peers : PeerFile) → trust_of fp ((remove fp peers).1) ≡ trust_owner
unfolding trust_of
trust_of-remove fp peers =
    let gone : get fp ((remove fp peers).1) ≡ none =
      (get-remove fp fp peers).1 ∙ ground (arith, eq_refl fp) in
    ap trust_level_or_owner gone

handle_untrusted :
    (ext : Externals) (place : Place) (frame : Frame) (caller trust : String) (at : Moment)
    (st : Local)
    → trust ≢ trust_owner
    → handle ext place frame caller trust false at st ≡ (err (refused deny_untrusted), st)
unfolding handle check_acl
handle_untrusted ext place frame caller trust at st h = rw (handle, check_acl, not_owner) refl
  where
    not_owner : (trust == trust_owner) ≡ false
    not_owner = ground (arith, eq_iff trust trust_owner)

-- A request of a peer that is not an owner, whatever it asks for, leaves the store as it was.
pub build_store_reply_untrusted :
    (ext : Externals) (place : Place) (peers : PeerFile) (fp : String) (at : Moment)
    (op req_id : String) (payload : Fields) (st : Local)
    → trust_of fp peers ≢ trust_owner
    → (build_store_reply ext place peers fp at op req_id payload st).1 ≡ st
unfolding build_store_reply
build_store_reply_untrusted ext place peers fp at op req_id payload st h =
    ap (λ a. a.1)
      (handle_untrusted ext place (from_parts op payload) fp (trust_of fp peers) at st h)

parse-pointer : parse_op "master.pointer" ≡ pointer_apply
unfolding parse_op
parse-pointer = refl

pointer_allowed :
    (payload : Fields) (fp : String)
    → check_acl (from_parts "master.pointer" payload) fp trust_owner false ≡ allow
unfolding check_acl parse_op
pointer_allowed payload fp = refl

-- A pushed pointer is taken for one of an owner, whatever the trust level of the peer that pushes it
-- is: the pointer afterwards is the one that `pointer_apply` leaves, and nothing else has changed.
pub take_push-pointer :
    (ext : Externals) (place : Place) (peers : PeerFile) (fp : String) (at : Moment)
    (payload : Fields) (st : Local)
    → take_push ext place peers fp at "master.pointer" payload st
      ≡ with_pointer
          ((Master.pointer_apply place.device_id
            (from_parts "master.pointer" payload)
            st.pointer).1)
          st
unfolding take_push dispatch fence needs_master_fence parse_op
take_push-pointer ext place peers fp at payload st =
    ap (λ a. a.1)
      (carry_out ext place (from_parts "master.pointer" payload) fp trust_owner false at st
        (pointer_allowed payload fp) refl)
