-- ===== src/Domain.antt =====
-- internal/domain: the data that the services, the repositories and the adapters exchange.
pub mod Values
pub mod Auth
pub mod Runtime
pub mod Agents
pub mod Snapshot
pub mod Control
pub mod Telemetry
