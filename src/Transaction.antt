-- ===== src/Transaction.antt =====
-- transaction/: transactions and their manager, the visibility of row versions, and row locks.
pub mod Manager
pub mod Visibility
pub mod Locks
pub mod Versions
