-- ===== src/Mr.antt =====
-- MapReduce: src/mr, and the sequential version of src/main/mrsequential.go.
pub mod Types
pub mod Coordinator
pub mod Keys
pub mod Grouping
pub mod Worker
pub mod Sequential
mod Tests
