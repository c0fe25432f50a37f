-- ===== src/Scripts.antt =====
-- Programs under scripts/ that share code with the service.
pub mod PassportImage
pub mod Td3Layout
pub mod Names
pub mod Fields
pub mod RoundTrip
