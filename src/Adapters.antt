-- ===== src/Adapters.antt =====
-- The adapters of the runtimes: internal/adapters/langgraph and internal/adapters/gantry.
pub mod Http
pub mod Checked
pub mod Sent
pub mod LangGraph
pub mod Gantry
