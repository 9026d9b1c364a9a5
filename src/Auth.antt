-- ===== src/Auth.antt =====
-- Accounts and sessions: internal/services/auth.go.
pub mod Limiter
pub mod Blocked
pub mod Capacity
pub mod Password
pub mod Stored
pub mod Service
pub mod Admitted
