-- ===== src/Adapters/Gantry.antt =====
-- internal/adapters/gantry: Dto is dto.go, Usage is usage.go; Client, Listing, Doctor, Delegates,
-- Access and Tasks are the methods of client.go.
pub mod Dto
pub mod Client
pub mod Doctor
pub mod Delegates
pub mod Access
pub mod Listing
pub mod Usage
pub mod Tasks
pub mod Worst
pub mod Replaced
pub mod Complete
