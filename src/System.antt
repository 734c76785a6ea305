-- ===== src/System.antt =====
-- The catalogue of src/system.
pub mod Stream
pub mod Meta
pub mod Catalogue
pub mod Tables
pub mod RoundTrip
