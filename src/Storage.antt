-- ===== src/Storage.antt =====
-- internal/storage: the page cache and the store of blocks under it.
pub mod Serializer
pub mod PageCache
pub mod File
mod Tests
