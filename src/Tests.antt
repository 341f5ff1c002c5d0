-- ===== src/Tests.antt =====
-- The theorems at concrete inputs, and the data they use.
mod World
mod Protocol
mod Pointers
mod Imports
mod Uploads
mod Envelope
mod Pushes
mod Browse
mod Connect
mod Dispatch
mod Admin
mod Session
mod Gc
