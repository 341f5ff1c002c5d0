-- ===== src/Peer.antt =====
-- src/peer: the paired devices and the pairing of a new one.
pub mod Peers
pub mod Pairing
pub mod Sessions
pub mod Transport
pub mod Connect
pub mod Advertise
