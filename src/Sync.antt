-- ===== src/Sync.antt =====
-- internal/syncstore and internal/syncsvc: device synchronisation.
pub mod Op
pub mod Reconcile
pub mod Codec
pub mod Columns
pub mod Mirror
pub mod Store
pub mod Service
pub mod Tests
