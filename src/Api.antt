-- ===== src/Api.antt =====
-- The HTTP routes: src/hawiya/api.
pub mod Types
pub mod Documents
pub mod Identity
pub mod Persons
pub mod Audit
pub mod Conflict
pub mod Steps
pub mod History
pub mod Server
pub mod Health
