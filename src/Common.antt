-- ===== src/Common.antt =====
-- common/: values, columns and the doubles among them.
pub mod Value
pub mod Schema
pub mod Double
