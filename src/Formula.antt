-- ===== src/Formula.antt =====
-- src/formula.rs: the language of rule formulas.
pub mod Tokens
pub mod Bytes
pub mod Scan
pub mod Lexer
pub mod Ast
pub mod Parser
pub mod Printer
