-- ===== src/Buffer.antt =====
-- buffer/: the page cache and its replacement policy.
pub mod Replacer
pub mod Pool
