-- ===== src/Extractors/Types.antt =====
-- src/hawiya/extractors/types.py: the types of the pipeline, and the errors that it raises.
use hawiya_ai.Prelude.{ℕ, Bool, not, Option, [], ◌∷◌, if◌then◌else◌, all, Result}
use hawiya_ai.Text.{Text}
use hawiya_ai.Date.{Date}

pub data DocumentType : Type 0 where
  passport emirates_id gcc_id residence_permit other : DocumentType

pub data ChecksumStatus : Type 0 where
  all_pass partial all_fail not_applicable : ChecksumStatus

pub data ProcessingPath : Type 0 where
  mrz_only mrz_plus_visual visual_only vision_fallback : ProcessingPath

pub data Sex : Type 0 where
  male female unspecified : Sex

-- `MRZFormatError` carries the line and its length, the two numbers of its message.
pub data Error : Type 0 where
  mrz_format : ℕ → ℕ → Error
  value_error : Error
  assertion_error : Error
  unsupported_document : Error
  no_mrz_found : Text → Error
  ocr_unavailable : Text → Error

-- A call of the pipeline, which returns or raises.
abbrev pub Attempt : Type 0 → Type 0
Attempt A = Result Error A

pub record ChecksumReport : Type 0 where
  pub doc_number : Bool
  pub dob : Bool
  pub expiry : Bool
  pub personal : Bool
  pub composite : Bool

abbrev identity : Bool → Bool
identity b = b

-- `ChecksumReport.status`.
unfoldable pub status : ChecksumReport → ChecksumStatus
status r =
    let results = r.doc_number ∷ r.dob ∷ r.expiry ∷ r.personal ∷ r.composite ∷ [] in
    if all identity results then all_pass else if all not results then all_fail else partial

pub record ParsedMrz : Type 0 where
  pub document_type : Text
  pub issuing_country : Text
  pub surname : Text
  pub given_names : Text
  pub document_number : Text
  pub nationality : Text
  pub date_of_birth : Option Date
  pub sex : Option Sex
  pub date_of_expiry : Option Date
  pub personal_number : Text
  pub checksums : ChecksumReport
  pub raw_line_1 : Text
  pub raw_line_2 : Text
