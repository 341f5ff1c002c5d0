-- ===== src/Noise.antt =====
-- src/noise: what goes over the wire.
pub mod Envelope
pub mod Session
