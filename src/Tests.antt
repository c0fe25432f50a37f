-- ===== src/Tests.antt =====
-- Runs of the model on concrete inputs.
mod Sample
mod Documents
mod Tenants
mod Requests
mod Limits
mod Middleware
mod Redaction
mod Repair
mod Names
mod Adapter
mod Search
mod History
mod Server
