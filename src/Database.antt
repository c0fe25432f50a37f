-- ===== src/Database.antt =====
-- The session with the database, and the repositories over it: src/hawiya/db.
pub mod World
pub mod Environment
pub mod Repositories
pub mod Effects
pub mod Reads
pub mod Search
pub mod Keys
pub mod Growth
pub mod Frame
pub mod Steps
pub mod Registry
pub mod Policies
pub mod Columns
