-- ===== src/Executor.antt =====
-- executor/: comparison of values, expressions, the operators of a plan, and the statements.
pub mod Compare
pub mod Eval
pub mod Operator
pub mod Scan
pub mod Filter
pub mod Limit
pub mod Project
pub mod Sort
pub mod Aggregate
pub mod Plan
pub mod IndexScan
pub mod Select
pub mod Insert
