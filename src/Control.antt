-- ===== src/Control.antt =====
-- internal/services/control_actions.go and internal/store/control_repository.go: the audited
-- actions that change a runtime.
pub mod World
pub mod Repository
pub mod Exec
pub mod Audit
pub mod Protocol
pub mod Access
pub mod Status
pub mod Reject
pub mod Delete
pub mod Cancel
pub mod Requests
pub mod Replay
pub mod Keeps
pub mod Invariant
pub mod Guarded
pub mod Triple
pub mod Rows
