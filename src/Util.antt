-- ===== src/Util.antt =====
-- utilities/: status codes, and fixed-width values in raw memory.
pub mod Status
pub mod Bytes
pub mod Sets
pub mod Maps
