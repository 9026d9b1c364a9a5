-- ===== src/Config.antt =====
-- The configuration of the server: internal/config/config.go and dotenv.go.
pub mod Values
pub mod DotEnv
pub mod Assigned
pub mod Load
pub mod Safe
