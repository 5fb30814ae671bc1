-- ===== src/Walk.antt =====
-- src/pool/snapshot.rs: the walk over the target's memory.
pub mod Memory
pub mod Complaints
pub mod Rounds
pub mod Nodes
pub mod Regions
pub mod Extent
pub mod Special
pub mod Slots
pub mod Chunks
pub mod Region
pub mod Discovered
mod Tests
