-- ===== src/Control/Rows.antt =====
-- What the methods of internal/services/control_actions.go leave in the table `control_actions`.
pub mod Table
pub mod Stages
pub mod Settled
pub mod Phases
pub mod Performed
