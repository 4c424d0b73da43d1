-- ===== src/KvSrv.antt =====
-- src/kvsrv: a key/value service on one server, and its clerk.
pub mod Server
pub mod Clerk
mod Tests
