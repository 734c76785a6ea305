-- ===== src/Storage/Pool.antt =====
-- `BufferPoolManager` of src/storage/buffer_pool_manager.{h,cpp}. The latch makes each function one
-- step. An exception leaves the pool as it is at that point.
pub mod Frames
pub mod Ops
pub mod Inv
pub mod Steps
pub mod Fetch
pub mod Promises
pub mod Flush
