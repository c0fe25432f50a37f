-- ===== src/Services/Identity/Reading.antt =====
-- How src/hawiya/services/identity_service.py reads the fields of an extraction.
use hawiya_ai.Prelude.{Option, none, some, List, [], ◌∷◌, if◌then◌else◌, is_empty, not, filter}
use hawiya_ai.Text.{Text, text, text_eq}
use hawiya_ai.Text.Strip.{strip}
use hawiya_ai.Text.Split.{join}
use hawiya_ai.Date.{Date, fromisoformat}
use hawiya_ai.Extractors.Types.{Sex}
use hawiya_ai.Models.{Confidence, Confidences, Fields}
use hawiya_ai.Database.Repositories.{present}

-- `fields.get(key)`, and `confidence_per_field.get(key)`.
unfoldable pub field : Text → Fields → Option Text
field key [] = none
field key ((k, v) ∷ fields) = if text_eq k key then v else field key fields

unfoldable pub confidence_of : Text → Confidences → Option Confidence
confidence_of key [] = none
confidence_of key ((k, v) ∷ rest) = if text_eq k key then some v else confidence_of key rest

-- `_parse_iso_date`.
unfoldable pub parse_iso_date : Option Text → Option Date
parse_iso_date none = none
parse_iso_date (some []) = none
parse_iso_date (some (c ∷ s)) = fromisoformat (c ∷ s)

-- `_parse_sex`: the value of the enumeration, or `None`.
abbrev sex_of : Text → Option Sex
sex_of s =
    if text_eq s (text "M")
    then some Sex.male
    else if text_eq s (text "F")
    then some Sex.female
    else if text_eq s (text "X")
    then some Sex.unspecified
    else none

unfoldable pub parse_sex : Option Text → Option Sex
parse_sex none = none
parse_sex (some []) = none
parse_sex (some (c ∷ s)) = sex_of (c ∷ s)

abbrev or_empty : Option Text → Text
or_empty none = []
or_empty (some s) = s

-- `" ".join(p for p in (given, surname) if p) or None`.
unfoldable pub canonical_en : Fields → Option Text
canonical_en fields =
    let surname = strip (or_empty (field (text "surname") fields)) in
    let given = strip (or_empty (field (text "given_names") fields)) in
    present (some (join (text " ") (filter (λ p. not (is_empty p)) (given ∷ surname ∷ []))))

abbrev pub variants : Option Text → List Text
variants none = []
variants (some name) = name ∷ []
