-- ===== src/Models.antt =====
-- The rows of the database: src/hawiya/models. Times that the server fills in, and the keys of rows
-- that nothing refers to, are left out.
use hawiya_ai.Prelude.{ℕ, Bool, Option, List}
use hawiya_ai.Text.{Text}
use hawiya_ai.Date.{Date}
use hawiya_ai.Extractors.Types.{Sex, DocumentType, ChecksumStatus, ProcessingPath}

-- A UUID, as the number that it is.
abbrev pub Uuid : Type 0
Uuid = ℕ

-- A confidence in hundredths: 99 stands for the float 0.99.
abbrev pub Confidence : Type 0
Confidence = ℕ

-- A mean of confidences: the sum of hundredths, and over how many.
pub record Ratio : Type 0 where
  pub sum : ℕ
  pub count : ℕ

pub data PersonStatus : Type 0 where
  active merged archived : PersonStatus

pub record Person : Type 0 where
  pub person_uuid : Uuid
  pub tenant_id : Uuid
  pub canonical_name_ar : Option Text
  pub canonical_name_en : Option Text
  pub date_of_birth : Option Date
  pub nationality : Option Text
  pub sex : Option Sex
  pub status : PersonStatus
  pub merged_into : Option Uuid

pub data IdentifierType : Type 0 where
  passport emirates_id gcc_id prior_passport : IdentifierType

pub data IdentifierStatus : Type 0 where
  active archived : IdentifierStatus

pub record PersonIdentifier : Type 0 where
  pub tenant_id : Uuid
  pub person_uuid : Uuid
  pub identifier_type : IdentifierType
  pub identifier_value : Text
  pub issuing_country : Option Text
  pub issue_date : Option Date
  pub expiry_date : Option Date
  pub is_primary : Bool
  pub source : Option Text
  pub confidence : Option Confidence
  pub status : IdentifierStatus

pub data NameScript : Type 0 where
  arabic latin other : NameScript

pub data NameVariantType : Type 0 where
  canonical transliteration alias mrz : NameVariantType

pub record PersonNameVariant : Type 0 where
  pub tenant_id : Uuid
  pub person_uuid : Uuid
  pub name_value : Text
  pub script : NameScript
  pub variant_type : NameVariantType
  pub phonetic_key : Option Text

-- `dict[str, str | None]` and `dict[str, float]`, in insertion order.
abbrev pub Fields : Type 0
Fields = List (Text × Option Text)

abbrev pub Confidences : Type 0
Confidences = List (Text × Confidence)

-- The values of the `output_summary` of an audit row. A UUID stands for its text.
pub data SummaryValue : Type 0 where
  null : SummaryValue
  str : Text → SummaryValue
  uuid : Uuid → SummaryValue

abbrev pub Summary : Type 0
Summary = List (Text × SummaryValue)

-- `MatchAction` of src/hawiya/matching/types.py.
pub data MatchAction : Type 0 where
  auto_matched suggested_match new_record manual_review no_match_no_create : MatchAction

pub record DocumentExtraction : Type 0 where
  pub extraction_id : Uuid
  pub tenant_id : Uuid
  pub consumer_request_id : Option Text
  pub input_hash : Text
  pub document_type : DocumentType
  pub extracted_data : Fields
  pub confidence_per_field : Confidences
  pub checksum_status : ChecksumStatus
  pub processing_path : ProcessingPath
  pub processing_time_ms : ℕ
  pub person_uuid : Option Uuid
  pub match_action : Option MatchAction

-- The dictionaries that the matcher puts beside its decision.
pub data Features : Type 0 where
  by_emirates_id : Features
  by_passport : (nationality_match dob_match : Bool) → Features
  by_nothing : (had_emirates_id had_passport_number : Bool) → Features

pub data MatchType : Type 0 where
  deterministic probabilistic llm_assisted : MatchType

pub data MatchDecisionValue : Type 0 where
  auto_merge suggest_merge no_match manual_review : MatchDecisionValue

pub record MatchDecision : Type 0 where
  pub tenant_id : Uuid
  pub candidate_a : Option Uuid
  pub candidate_b : Option Uuid
  pub match_type : MatchType
  pub confidence : Confidence
  pub features : Features
  pub decision : MatchDecisionValue

pub record AuditLog : Type 0 where
  pub tenant_id : Uuid
  pub request_id : Text
  pub user_id : Option Text
  pub endpoint : Text
  pub input_hash : Option Text
  pub output_summary : Option Summary
  pub model_versions : Option (List (Text × Text))
  pub confidence : Option Ratio
  pub processing_path : Option ProcessingPath
  pub decision : Option Text
