-- ===== src/Extractors.antt =====
-- The document pipeline up to structured fields: src/hawiya/extractors.
pub mod Types
pub mod Validators
pub mod CheckDigit
pub mod Classifier
pub mod Mrz
pub mod Repair
pub mod MrzDates
pub mod Readable
pub mod ParseResult
pub mod Ocr
