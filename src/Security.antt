-- ===== src/Security.antt =====
-- src/hawiya/security.
pub mod Regex
pub mod Pii
