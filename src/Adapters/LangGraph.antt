-- ===== src/Adapters/LangGraph.antt =====
-- internal/adapters/langgraph: Dto is dto.go, Pages the three loops over pages, Client the methods
-- of the adapter.
pub mod Dto
pub mod Pages
pub mod Client
pub mod Snapshot
pub mod Turns
pub mod Listed
pub mod Bounded
