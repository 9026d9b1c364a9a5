-- ===== src/Snapshots.antt =====
-- What a synchronization writes: `SyncRepository` of internal/store/sync_repository.go, and the
-- upserts of internal/store/runtime_inventory_repository.go.
pub mod Tables
pub mod Upserts
pub mod Agents
pub mod Persist
pub mod Runs
pub mod Missed
pub mod Stored
pub mod Counted
pub mod Stale
