-- ===== src/Peer/Sessions/Registry.antt =====
-- `SessionRegistry` of src/peer/sessions.rs. A session keeps the ids of the requests that wait for
-- a reply; the cipher states are left out, and with them the sending.
use Prim.Native.String.{◌++◌ as ◌<>◌}
use nexuspouch.Base.{
  String, ℕ, ◌+◌, ◌%◌, ◌^◌, List, [], Bool, true, false, not, any, select, Option, none, some,
  if◌then◌else◌, ◌==◌, ◌≡◌, arith, eq_refl,
}
use nexuspouch.Base.Dict
use nexuspouch.Base.Dict.{Dict, lookup-insert, lookup-remove}
use nexuspouch.Base.Decimal.{show_ℕ}

pub record LiveSession : Type 0 where
  pub fp : String
  pub pending : List String

-- `seq` is an `AtomicU64`.
pub record SessionRegistry : Type 0 where
  pub by_fp : Dict LiveSession
  pub seq : ℕ

abbrev pub new_registry : SessionRegistry
new_registry = record { by_fp = []; seq = 0 }

unfoldable pub add : String → SessionRegistry → SessionRegistry
add fp r = record { by_fp = Dict.insert fp (record { fp = fp; pending = [] }) r.by_fp; seq = r.seq }

unfoldable pub remove : String → SessionRegistry → SessionRegistry
remove fp r = record { by_fp = Dict.remove fp r.by_fp; seq = r.seq }

unfoldable pub get : String → SessionRegistry → Option LiveSession
get fp r = Dict.lookup fp r.by_fp

abbrev without_request : String → String → LiveSession → SessionRegistry → SessionRegistry
without_request fp req_id ls r = record {
  by_fp =
      Dict.insert fp (record { fp = ls.fp; pending = select (λ i. not (i == req_id)) ls.pending })
        r.by_fp;
  seq = r.seq;
}

-- Whether somebody has waited for the reply, and the registry without the request.
unfoldable pub deliver_reply : String → String → SessionRegistry → Bool × SessionRegistry
unfolding get
deliver_reply fp req_id r = elim (get fp r) [
  | none ↦ (false, r)
  | some ls ↦
      if any (λ i. i == req_id) ls.pending
      then (true, without_request fp req_id ls r)
      else (false, r)
]

unfoldable pub next_req_id : SessionRegistry → String × SessionRegistry
next_req_id r = ("rpc-" <> show_ℕ r.seq, record { by_fp = r.by_fp; seq = (r.seq + 1) % 2 ^ 64 })

-- A removed session is found no more, and no reply is delivered to it; all others are as before.
pub deliver_reply-remove :
    (fp other req_id : String) (r : SessionRegistry)
    → ((deliver_reply fp req_id (remove fp r)).0 ≡ false)
      × (get other (remove fp r) ≡ (if fp == other then none else get other r))
unfolding deliver_reply remove get
deliver_reply-remove fp other req_id r =
    (ground (arith, lookup-remove fp fp r.by_fp, eq_refl fp), lookup-remove fp other r.by_fp)
