-- ===== src/Recovery.antt =====
-- recovery/: the write-ahead log, and the replay of it after a crash.
pub mod Wal
pub mod Replay
