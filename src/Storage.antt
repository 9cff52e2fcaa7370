-- ===== src/Storage.antt =====
-- dfc_credential_storage.c: loading, saving and deleting credentials.
pub mod Status
pub mod Memory
pub mod Codec
pub mod HostApi
pub mod Plugin
pub mod Model
pub mod Load
pub mod Ledger
pub mod Opening
pub mod Reading
pub mod Verdict
pub mod Accepted
pub mod Loaded
pub mod Save
pub mod Saved
pub mod Paths
pub mod Reload
pub mod Toy
mod Tests
