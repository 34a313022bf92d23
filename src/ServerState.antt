-- ===== src/ServerState.antt =====
-- src/server/ServerState.h and .cpp: the state of the server around the stages.
pub mod State
pub mod Input
pub mod Flush
pub mod Requests
pub mod Keeps
pub mod VirtualKeys
pub mod Toggles
pub mod FlushOrder
pub mod Tests
