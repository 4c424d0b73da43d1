-- ===== src/KvRaft.antt =====
-- The fault-tolerant key/value service of src/kvraft.
pub mod Types
pub mod Server
pub mod Clerk
pub mod Locks
pub mod Tests
