-- ===== src/Store.antt =====
-- src/store/: the storage node's components.
pub mod Stored
pub mod Cursors
pub mod Master
pub mod ImportAuth
pub mod Seeds
pub mod Import
pub mod Externals
pub mod Paths
pub mod Write
pub mod Local
pub mod Browse
pub mod Dispatch
pub mod Maintenance
pub mod Gc
