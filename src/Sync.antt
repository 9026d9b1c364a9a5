-- ===== src/Sync.antt =====
-- The synchronization of a runtime: internal/services/runtime_sync.go.
pub mod Validate
pub mod Validated
pub mod Service
pub mod Lock
pub mod Trail
