-- ===== src/Engine.antt =====
-- src/engine.rs: the explain interpreter.
pub mod Errors
pub mod Inputs
pub mod Scalars
pub mod Parameters
