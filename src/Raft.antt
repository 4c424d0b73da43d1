-- ===== src/Raft.antt =====
-- The Raft peer of src/raft, a module for each file or group of methods.
pub mod Types
pub mod Log
pub mod Persist
pub mod Append
pub mod Leader
pub mod Vote
pub mod Snapshot
pub mod Applier
pub mod Node
pub mod Cluster
pub mod Group
mod Tests
