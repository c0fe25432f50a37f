-- ===== src/Services.antt =====
-- The services: src/hawiya/services.
pub mod Base
pub mod Extraction
pub mod Person
pub mod Identity
