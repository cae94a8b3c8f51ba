-- ===== src/Keys.antt =====
-- core/keys.py: key material, its generation and replenishment, and hybrid signatures.
-- Random draws are arguments: `coins` of a call, and `draw i` of round `i` of a loop.
pub mod Types
pub mod Opks
pub mod Bundle
pub mod Hybrid
