-- ===== src/Raft.antt =====
-- src/raft: the log, the node and its RPC handlers.
pub mod Log
pub mod Messages
pub mod Node
pub mod Vote
pub mod Replicate
pub mod Steps
pub mod Safety
pub mod Worker
