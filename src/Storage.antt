-- ===== src/Storage.antt =====
-- src/replacer and src/storage: the LRU replacer, the disk manager's pages, the buffer pool.
pub mod Replacer
pub mod Disk
pub mod Pool
