-- ===== src/Peer/Pairing.antt =====
-- src/peer/pairing.rs: the pairing in progress, the decision of the user and the peer it leads to.
pub mod Decision
use nexuspouch.Base.{
  String, ℕ, zero, suc, ℤ, List, [], ◌∷◌, ◌++◌, length, Bool, true, false, Option, none, some,
  if◌then◌else◌, is_empty,
}
use nexuspouch.Result.{Result, ok, err}
use nexuspouch.Protocol.{trust_owner}
use nexuspouch.Peer.Peers.{Peer, PeerFile, upsert}

pub record PairingRequest : Type 0 where
  pub pairing_code : String
  pub device_name : String
  pub device_id : String
  pub channel_endpoint : Option String
  pub local_endpoint : Option String
  pub timestamp : ℤ

pub record PairingResponse : Type 0 where
  pub accepted : Bool
  pub device_name : String
  pub device_id : String
  pub peer_id : String
  pub channel_endpoint : Option String
  pub local_endpoint : Option String
  pub reject_reason : Option String

pub record PendingRequest : Type 0 where
  pub device_name : String
  pub device_id : String
  pub fingerprint : String
  pub session_id : String

pub record ActivePairing : Type 0 where
  pub request : PairingRequest
  pub session_id : String

-- A channel of `std::sync::mpsc`: what was sent and waits, and whether the receiver still lives.
pub record Channel : Type 0 where
  pub sent : List Bool
  pub is_open : Bool

-- `HubState`; a sender is the place of its channel among all that were made.
pub record Hub : Type 0 where
  pub code : String
  pub pending : Option PendingRequest
  pub active : Option ActivePairing
  pub wait_accept : Option ℕ
  pub channels : List Channel

abbrev pub new_hub : Hub
new_hub = record { code = ""; pending = none; active = none; wait_accept = none; channels = [] }

unfoldable pub channel_at : ℕ → List Channel → Option Channel
channel_at n [] = none
channel_at zero (c ∷ cs) = some c
channel_at (suc n) (c ∷ cs) = channel_at n cs

unfoldable pub set_channel : ℕ → Channel → List Channel → List Channel
set_channel n new [] = []
set_channel zero new (c ∷ cs) = new ∷ cs
set_channel (suc n) new (c ∷ cs) = c ∷ set_channel n new cs

abbrev with_channels : List Channel → Hub → Hub
with_channels cs hub = record {
  code = hub.code;
  pending = hub.pending;
  active = hub.active;
  wait_accept = hub.wait_accept;
  channels = cs;
}

-- `start`, with the new code
abbrev pub start : String → Hub → Hub
start code hub = record {
  code = code;
  pending = none;
  active = none;
  wait_accept = none;
  channels = hub.channels;
}

abbrev pub push : Bool → Channel → Channel
push accept c = record { sent = c.sent ++ accept ∷ []; is_open = c.is_open }

abbrev send_to : ℕ → Bool → Option Channel → Hub → Result String (Unit {0}) × Hub
send_to n accept none hub = (err "decision already sent", hub)
send_to n accept (some c) hub =
    if c.is_open
    then (ok tt, with_channels (set_channel n (push accept c) hub.channels) hub)
    else (err "decision already sent", hub)

unfoldable pub decide : Bool → Hub → Result String (Unit {0}) × Hub
decide accept hub = elim (hub.wait_accept) [
  | none ↦ (err "no pending pairing", hub)
  | some n ↦ send_to n accept (channel_at n hub.channels) hub
]

-- The receiver is the place of the new channel.
unfoldable pub begin_accept_wait : Hub → ℕ × Hub
begin_accept_wait hub = (
  length hub.channels,
  record {
    code = hub.code;
    pending = hub.pending;
    active = hub.active;
    wait_accept = some (length hub.channels);
    channels = hub.channels ++ record { sent = []; is_open = true } ∷ [];
  },
)

abbrev pub set_pending : PendingRequest → ActivePairing → Hub → Hub
set_pending pending active hub = record {
  code = hub.code;
  pending = some pending;
  active = some active;
  wait_accept = hub.wait_accept;
  channels = hub.channels;
}

abbrev pub clear_pairing : Hub → Hub
clear_pairing hub = start "" hub

abbrev first_or_false : List Bool → Bool
first_or_false [] = false
first_or_false (b ∷ bs) = b

abbrev received : ℕ → Option Channel → Hub → Bool × Hub
received n none hub = (false, hub)
received n (some c) hub = (
  first_or_false c.sent,
  with_channels (set_channel n (record { sent = []; is_open = false }) hub.channels) hub,
)

-- `wait_pairing_decision`: the first decision sent, or `false` where none comes within the time, and
-- the receiver is dropped.
unfoldable pub wait_pairing_decision : ℕ → Hub → Bool × Hub
wait_pairing_decision n hub = received n (channel_at n hub.channels) hub

abbrev endpoint_of : String → Option String
endpoint_of s = if is_empty s then none else some s

-- `device_name` and `device_id` are the node's own.
abbrev pub build_pairing_response :
    String → String → Bool → String → String → String → PairingResponse
build_pairing_response name device accept peer_id local channel = record {
  accepted = accept;
  device_name = name;
  device_id = device;
  peer_id = if accept then peer_id else "";
  channel_endpoint = if accept then endpoint_of channel else none;
  local_endpoint = if accept then endpoint_of local else none;
  reject_reason = if accept then none else some "rejected";
}

-- `key` is the peer's public key in base64 and `now` the wall clock in milliseconds.
abbrev pub paired_peer : String → String → PairingRequest → String → ℤ → Peer
paired_peer fp key req peer_id now = record {
  fingerprint = fp;
  public_key_b64 = key;
  device_name = req.device_name;
  peer_id = peer_id;
  trust_level = trust_owner;
  paired_at_ms = now;
  local_endpoint = req.local_endpoint;
  channel_endpoint = req.channel_endpoint;
}

abbrev pub save_paired_peer : String → String → PairingRequest → String → ℤ → PeerFile → PeerFile
save_paired_peer fp key req peer_id now file = upsert (paired_peer fp key req peer_id now) file
