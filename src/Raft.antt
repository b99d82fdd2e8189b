-- ===== src/Raft.antt =====
-- internal/raft: the consensus node.
pub mod Types
pub mod Vote
pub mod Append
pub mod Leader
pub mod Events
pub mod Compaction
mod Tests
