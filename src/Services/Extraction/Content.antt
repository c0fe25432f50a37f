-- ===== src/Services/Extraction/Content.antt =====
-- The fields of a parsed document and their confidences: src/hawiya/services/extraction_service.py.
use hawiya_ai.Prelude.{Bool, ◌&&◌, Option, none, some, [], ◌∷◌, if◌then◌else◌}
use hawiya_ai.Text.{Text, text}
use hawiya_ai.Text.Strip.{is_space, strip}
use hawiya_ai.Date.{Date, isoformat}
use hawiya_ai.Models.{Confidence, Confidences, Fields}
use hawiya_ai.Extractors.Types.{ChecksumStatus, Sex, ParsedMrz}
use hawiya_ai.Database.Repositories.{present}

abbrev pub checksum_pass : Confidence
checksum_pass = 99

abbrev pub checksum_fail : Confidence
checksum_fail = 50

abbrev pub name_default : Confidence
name_default = 85

abbrev pub sex_known : Confidence
sex_known = 95

abbrev pub sex_unspecified : Confidence
sex_unspecified = 50

-- `ChecksumStatus.value` and `Sex.value`.
abbrev pub status_value : ChecksumStatus → Text
status_value ChecksumStatus.all_pass = text "all_pass"
status_value ChecksumStatus.partial = text "partial"
status_value ChecksumStatus.all_fail = text "all_fail"
status_value ChecksumStatus.not_applicable = text "n/a"

abbrev pub sex_value : Sex → Text
sex_value Sex.male = text "M"
sex_value Sex.female = text "F"
sex_value Sex.unspecified = text "X"

-- `re.split(r"\s{2,}", s)[0]`: what stands before the first two neighbouring spaces.
unfoldable pub before_spaces : Text → Text
before_spaces [] = []
before_spaces (c ∷ []) = c ∷ []
before_spaces (c ∷ d ∷ s) =
    let rest = c ∷ before_spaces (d ∷ s) in if is_space c && is_space d then [] else rest

-- `_strip_ocr_junk`.
unfoldable pub strip_ocr_junk : Text → Text
strip_ocr_junk [] = []
strip_ocr_junk (c ∷ name) = before_spaces (strip (c ∷ name))

abbrev iso_or_none : Option Date → Option Text
iso_or_none none = none
iso_or_none (some d) = some (isoformat d)

abbrev sex_or_none : Option Sex → Option Text
sex_or_none none = none
sex_or_none (some s) = some (sex_value s)

-- `_fields_from_parsed`.
unfoldable pub fields_from_parsed : ParsedMrz → Fields
fields_from_parsed p =
    (text "document_type", some p.document_type)
    ∷ (text "issuing_country", some p.issuing_country)
    ∷ (text "surname", some (strip_ocr_junk p.surname))
    ∷ (text "given_names", some (strip_ocr_junk p.given_names))
    ∷ (text "document_number", some p.document_number)
    ∷ (text "nationality", some p.nationality)
    ∷ (text "date_of_birth", iso_or_none p.date_of_birth)
    ∷ (text "sex", sex_or_none p.sex)
    ∷ (text "date_of_expiry", iso_or_none p.date_of_expiry)
    ∷ (text "personal_number", present (some p.personal_number))
    ∷ []

abbrev from_checksum : Bool → Confidence
from_checksum passed = if passed then checksum_pass else checksum_fail

abbrev from_sex : Option Sex → Confidence
from_sex none = sex_unspecified
from_sex (some Sex.male) = sex_known
from_sex (some Sex.female) = sex_known
from_sex (some Sex.unspecified) = sex_unspecified

-- `_confidences_from_parsed`.
unfoldable pub confidences_from_parsed : ParsedMrz → Confidences
confidences_from_parsed p =
    (text "document_number", from_checksum p.checksums.doc_number)
    ∷ (text "date_of_birth", from_checksum p.checksums.dob)
    ∷ (text "date_of_expiry", from_checksum p.checksums.expiry)
    ∷ (text "personal_number", from_checksum p.checksums.personal)
    ∷ (text "surname", name_default)
    ∷ (text "given_names", name_default)
    ∷ (text "issuing_country", name_default)
    ∷ (text "nationality", name_default)
    ∷ (text "sex", from_sex p.sex)
    ∷ []
