-- ===== src/BTree.antt =====
-- internal/btree: the B-tree of the storage engine.
pub mod Bytes
pub mod Search
pub mod Sorted
pub mod Leaf
pub mod Internal
pub mod Codec
pub mod Pages
pub mod Tree
pub mod Cached
mod Tests
