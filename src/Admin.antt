-- ===== src/Admin.antt =====
-- src/admin: who may use the administration interface, and what its handlers ask of the store.
pub mod Auth
pub mod Handlers
