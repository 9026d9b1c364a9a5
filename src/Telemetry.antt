-- ===== src/Telemetry.antt =====
-- internal/services/telemetry.go and model_catalog.go: Catalog is the resolver of models, Costs the
-- decimals, Normalize and Service the service; Normalized and Counted are about it.
pub mod Catalog
pub mod Costs
pub mod Normalize
pub mod Service
pub mod Normalized
pub mod Content
pub mod Ingested
