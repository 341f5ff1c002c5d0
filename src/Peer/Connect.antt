-- ===== src/Peer/Connect.antt =====
-- src/peer/ws.rs: how a connection begins, by a pairing or as one of a known device. The handshake
-- and the socket are left out: a greeting is what the first message decrypts to.
pub mod Runs
pub mod Strangers
pub mod Welcome
use nexuspouch.Base.{
  String, ℕ, ℤ, pos, Bool, true, false, not, ◌&&◌, ◌||◌, Option, none, some, if◌then◌else◌, ◌==◌,
  is_empty,
}
use nexuspouch.Base.Json
use nexuspouch.Base.Json.{Fields, end, field, string, str_or_empty}
use nexuspouch.Peer.Peers.{PeerFile, get, merge_endpoints}
use nexuspouch.Peer.Pairing.{
  PairingRequest, PairingResponse, Hub, begin_accept_wait, set_pending, clear_pairing,
  wait_pairing_decision, build_pairing_response, save_paired_peer,
}

-- What the node says of itself: `PeerServer`.
pub record Own : Type 0 where
  pub device_name : String
  pub fingerprint : String
  pub local_endpoint : String
  pub channel_endpoint : String

-- The fingerprint and the key of the peer, and its payload as far as it can be read as a pairing
-- request, and as an object.
pub record Hello : Type 0 where
  pub fp : String
  pub key : String
  pub request : Option PairingRequest
  pub fields : Option Fields

pub record Contacts : Type 0 where
  pub hub : Hub
  pub peers : PeerFile

-- The second message of the handshake.
pub data Reply : Type 0 where
  pairing : PairingResponse → Reply
  reconnect : Fields → Reply

pub data Begun : Type 0 where
  -- the connection is closed after the reply
  ends : Reply → Begun
  -- messages are served after the reply
  serves : Reply → Begun
  -- the user is asked; the number is the receiver of the decision
  waits : PairingRequest → ℕ → Begun

-- The request, where a code has been issued and the payload presents one.
unfoldable pub pairing_asked : String → Option PairingRequest → Option PairingRequest
pairing_asked code none = none
pairing_asked code (some req) =
    if not (is_empty code) && not (is_empty req.pairing_code) then some req else none

abbrev with_endpoint : String → String → Fields → Fields
with_endpoint key value m = if is_empty value then m else Json.insert key (string value) m

module _ (own : Own) where
  abbrev invalid_code : PairingResponse
  invalid_code = record {
    accepted = false;
    device_name = own.device_name;
    device_id = own.fingerprint;
    peer_id = "";
    channel_endpoint = none;
    local_endpoint = none;
    reject_reason = some "Invalid pairing code";
  }

  abbrev reconnect_nack : Fields
  reconnect_nack =
      field "type" (string "reconnect_nack")
        (field "device_id" (string own.fingerprint) (field "reason" (string "unknown_peer") end))

  abbrev pub reconnect_ack : Fields
  reconnect_ack = with_endpoint "channel_endpoint" own.channel_endpoint (
      with_endpoint "local_endpoint" own.local_endpoint
        (field "type" (string "reconnect_ack") (field "device_id" (string own.fingerprint) end)))

  abbrev replied : Bool → Reply → Begun
  replied delivered r = if delivered then serves r else ends r

  -- The first half of `handle_pairing`.
  unfoldable pub offer : Hello → PairingRequest → String → Contacts → Begun × Contacts
  offer hello req session_id c =
      let (n, hub) = begin_accept_wait c.hub in
      if not (req.pairing_code == c.hub.code) then (ends (pairing invalid_code), c) else (
        waits req n,
        record {
          hub =
              set_pending
                (record {
                  device_name = req.device_name;
                  device_id = req.device_id;
                  fingerprint = hello.fp;
                  session_id = session_id;
                })
                (record { request = req; session_id = session_id }) hub;
          peers = c.peers;
        },
      )

  abbrev merged : String → Option Fields → PeerFile → PeerFile
  merged fp none peers = peers
  merged fp (some req) peers =
      merge_endpoints fp (str_or_empty "local_endpoint" req) (str_or_empty "channel_endpoint" req)
        peers

  -- `delivered` tells whether the reply could be written and sent.
  unfoldable pub handle_reconnect : Hello → Bool → Contacts → Begun × Contacts
  handle_reconnect hello delivered c = elim (get hello.fp c.peers) [
    | none ↦ (ends (reconnect reconnect_nack), c)
    | some p ↦ (
      replied delivered (reconnect reconnect_ack),
      record { hub = c.hub; peers = merged hello.fp hello.fields c.peers },
    )
  ]

  -- `handle_socket`, from the payload on.
  unfoldable pub greet : Hello → String → Bool → Contacts → Begun × Contacts
  greet hello session_id delivered c = elim (pairing_asked c.hub.code hello.request) [
    | some req ↦ offer hello req session_id c
    | none ↦ handle_reconnect hello delivered c
  ]

  -- The second half of `handle_pairing`, once there is a decision or the time has run out.
  unfoldable pub conclude :
      Hello → PairingRequest → ℕ → String → ℤ → Bool → Contacts → Begun × Contacts
  conclude hello req n peer_id now delivered c =
      let (accept, hub) = wait_pairing_decision n c.hub in
      let reply = pairing (
        build_pairing_response own.device_name own.fingerprint accept peer_id own.local_endpoint
          own.channel_endpoint) in
      if accept && delivered
      then (
        serves reply,
        record {
          hub = clear_pairing hub;
          peers = save_paired_peer hello.fp hello.key req peer_id now c.peers;
        },
      )
      else (ends reply, record { hub = clear_pairing hub; peers = c.peers })
