-- ===== src/Units.antt =====
-- The derivation of units (src/unit_derivation): the data of a request, its facts, the worlds that they
-- leave open, and the encodings that identify units and traces.
pub mod Types
pub mod Keys
pub mod Encoder
pub mod Worlds
pub mod Evaluate
pub mod Components
pub mod Division
pub mod Cuts
pub mod World
pub mod Freeze
pub mod Precedence
