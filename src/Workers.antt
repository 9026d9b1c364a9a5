-- ===== src/Workers.antt =====
-- The workers of internal/workers that run beside the API.
pub mod Schedule
pub mod Reached
pub mod Telemetry
pub mod Collected
