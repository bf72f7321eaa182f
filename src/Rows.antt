-- ===== src/Rows.antt =====
-- src/lazy.rs: the rows that a columnar evaluator computes a node for, and the errors of rows.
pub mod Mask
pub mod Invariant
pub mod Iteration
pub mod Algebra
pub mod Errors
pub mod FirstError
pub mod Naming
