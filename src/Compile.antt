-- ===== src/Compile.antt =====
-- src/compile.rs: the compiler's checks of a program.
pub mod Cycles
pub mod Parameters
