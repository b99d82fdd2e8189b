-- ===== src/Cluster.antt =====
-- internal/cluster: join tokens, members, transfers and the removal of nodes.
pub mod Types
pub mod Token
pub mod Join
pub mod Transfer
pub mod Removal
mod Tests
