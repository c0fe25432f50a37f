-- ===== src/Matching.antt =====
-- Identity matching: src/hawiya/matching.
pub mod Types
pub mod ArabicNames
pub mod Phonetic
pub mod Deterministic
pub mod Decision
pub mod Isolation
pub mod Soundness
