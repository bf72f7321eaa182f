-- ===== src/Tests.antt =====
-- Witnesses: each theorem with hypotheses, applied at a concrete input.
mod Sample
mod Rows
mod Inputs
mod Formula
mod Parser
mod Engine
mod Compile
mod Parameters
mod Digest
mod Units
