-- ===== src/Model.antt =====
-- src/model.rs: the values, periods and records that the evaluators share.
pub mod Platform
pub mod Values
pub mod Data
pub mod Versions
pub mod Tables
