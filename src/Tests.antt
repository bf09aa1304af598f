-- ===== src/Tests.antt =====
-- Runs of the theorems at concrete inputs, with concrete parameters.
pub mod Instances
pub mod Supply
mod Worlds
mod Chips
mod Tasks
mod Stores
mod Feeds
mod Counters
mod Systems
mod Library
mod Locks
