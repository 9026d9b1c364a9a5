-- ===== src/Examples.antt =====
-- The theorems applied to small concrete inputs, and runs of the definitions.
mod Actions
mod Replays
mod Snapshots
mod Requests
mod Logins
mod Settings
mod Vaults
mod Instances
mod Stores
mod Pages
mod Gantries
mod Usages
