-- ===== src/Tests.antt =====
-- Runs of the models on small inputs, and the theorems at inputs that meet their hypotheses.
mod Slotted
mod Record
mod Transaction
mod Locks
mod PageFile
mod Wal
mod Replay
mod Buffer
mod Parser
mod Executor
mod Select
mod Catalog
