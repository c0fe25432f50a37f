-- ===== src/Api/Persons/Schema.antt =====
-- `PersonCreateRequest` of src/hawiya/api/persons.py: the constraints of the fields that are texts. The
-- framework answers for a body that breaks one, and parses the dates and the sex.
use hawiya_ai.Prelude.{ℕ, Bool, true, ◌&&◌, Option, none, some, leb, length, ◌==◌}
use hawiya_ai.Text.{Text}
use hawiya_ai.Services.Person.{NewPerson}

-- `PERSON_SUMMARY_NAME_LIMIT`.
abbrev pub name_limit : ℕ
name_limit = 255

-- `Field(default=None, max_length=n)`, and with `min_length=n`, too.
abbrev pub at_most : ℕ → Option Text → Bool
at_most n none = true
at_most n (some s) = leb (length s) n

abbrev pub exactly : ℕ → Option Text → Bool
exactly n none = true
exactly n (some s) = length s == n

unfoldable pub is_valid : NewPerson → Bool
is_valid body =
    at_most name_limit body.canonical_name_ar
    && (at_most name_limit body.canonical_name_en
        && (exactly 3 body.nationality
            && (at_most 64 body.passport_number
                && (at_most 64 body.emirates_id && exactly 3 body.issuing_country))))
