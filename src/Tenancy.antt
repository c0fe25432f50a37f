-- ===== src/Tenancy.antt =====
-- The middleware that stands before the routes: src/hawiya/tenancy.
pub mod Http
pub mod RateLimit
pub mod Idempotency
pub mod Middleware
pub mod Stack
pub mod Context
