-- ===== src/Noise/Session.antt =====
-- src/noise/session.rs: a session from the handshake to the transport of messages. What the crate
-- snow does is a parameter.
pub mod Phases
use nexuspouch.Base.{
  String, ℕ, ◌+◌, List, length, Bool, true, false, not, Option, none, some, if◌then◌else◌,
}
use nexuspouch.Result.{Result, ok, err}

abbrev pub Bytes : Type 0
Bytes = List ℕ

-- A handshake of snow in progress is of the type `H`, its transport mode of the type `T`. To write
-- or read a message takes the message and the length of the buffer; what fails may have changed the
-- state too.
pub record Snow (H T : Type 0) : Type 0 where
  -- from the own private key and the public key of the peer
  pub build_initiator : Bytes → Bytes → Result String H
  pub build_responder : Bytes → Result String H
  pub write_message : H → Bytes → ℕ → Result String Bytes × H
  pub read_message : H → Bytes → ℕ → Result String Bytes × H
  pub get_remote_static : H → Option Bytes
  pub into_transport_mode : H → Result String T
  pub write_transport : T → Bytes → ℕ → Result String Bytes × T
  pub read_transport : T → Bytes → ℕ → Result String Bytes × T

pub record Session (H T : Type 0) : Type 0 where
  pub initiator : Bool
  pub handshake : Option H
  pub transport : Option T
  pub peer_pub : Option Bytes

module _ {H T : Type 0} (snow : Snow H T) where
  abbrev initiating : Bytes → Result String H → Result String (Session H T)
  initiating peer (err e) = err e
  initiating peer (ok hs) =
      ok (record { initiator = true; handshake = some hs; transport = none; peer_pub = some peer })

  unfoldable pub new_initiator : Bytes → Bytes → Result String (Session H T)
  new_initiator private peer = initiating peer (snow.build_initiator private peer)

  abbrev responding : Result String H → Result String (Session H T)
  responding (err e) = err e
  responding (ok hs) =
      ok (record { initiator = false; handshake = some hs; transport = none; peer_pub = none })

  unfoldable pub new_responder : Bytes → Result String (Session H T)
  new_responder private = responding (snow.build_responder private)

  abbrev with_handshake : Session H T → Result String Bytes × H → Result String Bytes × Session H T
  with_handshake s (r, hs) = (r, record s { handshake = some hs })

  unfoldable pub write_handshake1 : Bytes → Session H T → Result String Bytes × Session H T
  write_handshake1 payload s =
      if not s.initiator then (err "not initiator or wrong phase", s) else elim s.handshake [
        | none ↦ (err "not initiator or wrong phase", s)
        | some hs ↦ with_handshake s (snow.write_message hs payload (length payload + 256))
      ]

  abbrev learned : Session H T → Bytes → Option Bytes → Result String (Bytes × Bytes) × Session H T
  learned s payload none = (err "missing peer static", s)
  learned s payload (some peer) = (ok (payload, peer), record s { peer_pub = some peer })

  abbrev heard : Session H T → Result String Bytes × H → Result String (Bytes × Bytes) × Session H T
  heard s (err e, hs) = (err e, record s { handshake = some hs })
  heard s (ok payload, hs) =
      learned (record s { handshake = some hs }) payload (snow.get_remote_static hs)

  -- The payload and the key of the peer.
  unfoldable pub read_handshake1 : Bytes → Session H T → Result String (Bytes × Bytes) × Session H T
  read_handshake1 msg s =
      if s.initiator then (err "not responder or wrong phase", s) else elim s.handshake [
        | none ↦ (err "not responder or wrong phase", s)
        | some hs ↦ heard s (snow.read_message hs msg (length msg))
      ]

  abbrev moved_on :
      Session H T → Bytes → Option Bytes → Result String T → Result String Bytes × Session H T
  moved_on s bytes none t = (err "missing peer static", s)
  moved_on s bytes (some peer) (err e) = (err e, s)
  moved_on s bytes (some peer) (ok t) =
      (ok bytes, record s { transport = some t; peer_pub = some peer })

  -- `s` has given its handshake away.
  abbrev pub finished : Session H T → Result String Bytes × H → Result String Bytes × Session H T
  finished s (err e, hs) = (err e, s)
  finished s (ok bytes, hs) = moved_on s bytes s.peer_pub (snow.into_transport_mode hs)

  abbrev pub taken : Session H T → Session H T
  taken s = record s { handshake = none }

  unfoldable pub write_handshake2 : Bytes → Session H T → Result String Bytes × Session H T
  write_handshake2 payload s =
      if s.initiator then (err "not responder or wrong phase", s) else elim s.handshake [
        | none ↦ (err "not responder or wrong phase", s)
        | some hs ↦ finished (taken s) (snow.write_message hs payload (length payload + 256))
      ]

  unfoldable pub read_handshake2 : Bytes → Session H T → Result String Bytes × Session H T
  read_handshake2 msg s =
      if not s.initiator then (err "not initiator or wrong phase", s) else elim s.handshake [
        | none ↦ (err "not initiator or wrong phase", s)
        | some hs ↦ finished (taken s) (snow.read_message hs msg (length msg))
      ]

  abbrev with_transport : Session H T → Result String Bytes × T → Result String Bytes × Session H T
  with_transport s (r, t) = (r, record s { transport = some t })

  unfoldable pub encrypt : Bytes → Session H T → Result String Bytes × Session H T
  encrypt plaintext s = elim s.transport [
    | none ↦ (err "session not ready", s)
    | some t ↦ with_transport s (snow.write_transport t plaintext (length plaintext + 32))
  ]

  unfoldable pub decrypt : Bytes → Session H T → Result String Bytes × Session H T
  decrypt ciphertext s = elim s.transport [
    | none ↦ (err "session not ready", s)
    | some t ↦ with_transport s (snow.read_transport t ciphertext (length ciphertext))
  ]
