-- ===== src/Index.antt =====
-- The nodes of the B+ tree: `ix_compare` and `IxNodeHandle` of src/index/ix_index_handle.{h,cpp}.
pub mod Order
pub mod Compare
pub mod Orders
pub mod Columns
pub mod Node
pub mod Header
pub mod Tree
