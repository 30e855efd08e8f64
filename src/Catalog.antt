-- ===== src/Catalog.antt =====
-- catalog/: what the database knows of its tables and indexes.
pub mod Metadata
pub mod Codec
pub mod Directory
pub mod Manager
