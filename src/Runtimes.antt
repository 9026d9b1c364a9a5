-- ===== src/Runtimes.antt =====
-- Runtime connections: internal/services/runtime_connections.go and `RuntimeConnectionRepository`
-- of internal/store/repositories.go.
pub mod Input
pub mod Table
pub mod Repository
pub mod Changes
pub mod Service
pub mod Settings
pub mod Rows
pub mod Removed
pub mod Shared
pub mod Updated
pub mod Atomic
pub mod Created
