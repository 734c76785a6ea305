-- ===== src/Record.antt =====
-- The record files of src/record.
pub mod Bitmap
pub mod Layout
pub mod File
pub mod Scan
