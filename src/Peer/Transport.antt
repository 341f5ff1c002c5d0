-- ===== src/Peer/Transport.antt =====
-- src/peer/ws.rs: what a node does with a decrypted message of a connected peer. The socket, the
-- handshake and the encryption are left out: a message is the object that has been read.
pub mod Trust
use nexuspouch.Base.{
  String, ℕ, ℤ, pos, List, [], ◌∷◌, Bool, true, false, ◌&&◌, ◌||◌, not, Option, none, some,
  if◌then◌else◌, ◌==◌, is_empty,
}
use nexuspouch.Base.Json
use nexuspouch.Base.Json.{
  Fields, end, field, int, string, object, str_or_empty, unwrap_or, as_str, ◌>>=?◌,
}
use nexuspouch.Result.{Result, ok, err, OpError}
use nexuspouch.Protocol.{Frame, from_parts, trust_owner}
use nexuspouch.Store.Externals.{Externals}
use nexuspouch.Store.Import.{receive_pushed_grant}
use nexuspouch.Store.Local.{Local, Moment, now_ms, with_imports}
use nexuspouch.Store.Paths.{Place}
use nexuspouch.Store.Dispatch.{handle}
use nexuspouch.Peer.Peers.{Peer, PeerFile, get}
use nexuspouch.Peer.Sessions.{parse_store_control}
use nexuspouch.Peer.Sessions.Registry.{SessionRegistry, deliver_reply}

-- `self.peers.get(fp).ok().flatten().map(|p| p.trust_level).unwrap_or_else(..)`
abbrev trust_level_or_owner : Option Peer → String
trust_level_or_owner (some p) = p.trust_level
trust_level_or_owner none = trust_owner

unfoldable pub trust_of : String → PeerFile → String
trust_of fp peers = trust_level_or_owner (get fp peers)

abbrev with_req_id : String → Fields → Fields
with_req_id req_id m = if is_empty req_id then m else Json.insert "req_id" (string req_id) m

abbrev store_message : String → Fields → Fields
store_message op rest =
    field "type" (string "store")
      (field "ns" (string "store") (field "op" (string op) (field "v" (int (pos 1)) rest)))

unfoldable pub reply_message : String → Result OpError Fields → Fields
reply_message req_id (ok reply) =
    with_req_id req_id (store_message "result" (field "data" (object reply) end))
reply_message req_id (err e) =
    with_req_id req_id
      (store_message "error" (field "code" (string e.code) (field "message" (string e.msg) end)))

module _ (ext : Externals) (place : Place) (peers : PeerFile) (fp : String) (at : Moment) where
  unfoldable pub build_store_reply : String → String → Fields → Local → Fields × Local
  build_store_reply op req_id payload st =
      let (r, st') = handle ext place (from_parts op payload) fp (trust_of fp peers) false at st in
      (reply_message req_id r, st')

  -- A message without a request id is a push; only two kinds of pushes are read.
  unfoldable pub take_push : String → Fields → Local → Local
  take_push op payload st =
      if op == "master.pointer"
      then (handle ext place (from_parts op payload) fp trust_owner false at st).1
      else if op == "import.grant"
      then with_imports ((receive_pushed_grant place.device_id fp payload (now_ms at) st.imports).1)
          st
      else st

  abbrev pong : Fields
  pong = field "type" (string "pong") (field "timestamp" (int (now_ms at)) end)

  -- What is sent back, if anything, and the sessions and the store afterwards.
  abbrev Reaction : Type 0
  Reaction = Option Fields × SessionRegistry × Local

  abbrev sent : SessionRegistry → Fields × Local → Reaction
  sent sessions (reply, st) = (some reply, sessions, st)

  unfoldable pub take_control : Fields → SessionRegistry → Local → Reaction
  take_control raw sessions st = elim (parse_store_control raw) [
    | none ↦ (none, sessions, st)
    | some c ↦
        let (op, req_id, payload) = c in
        if is_empty req_id
        then (none, sessions, take_push op payload st)
        else sent sessions (build_store_reply op req_id payload st)
  ]

  abbrev is_reply : Fields → Bool
  is_reply raw =
      let op = str_or_empty "op" raw in
      (op == "result" || op == "error") && not (is_empty (str_or_empty "req_id" raw))

  abbrev after_delivery : Bool × SessionRegistry → Fields → Local → Reaction
  after_delivery (true, sessions) raw st = (none, sessions, st)
  after_delivery (false, sessions) raw st = take_control raw sessions st

  -- One round of the loop of `serve_transport`, from the object on.
  unfoldable pub serve : Fields → SessionRegistry → Local → Reaction
  serve raw sessions st =
      let delivered = deliver_reply fp (str_or_empty "req_id" raw) sessions in
      if str_or_empty "type" raw == "ping"
      then (some pong, sessions, st)
      else if is_reply raw
      then after_delivery delivered raw st
      else take_control raw sessions st
