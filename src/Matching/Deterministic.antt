-- ===== src/Matching/Deterministic.antt =====
-- `DeterministicMatcher.match` of src/hawiya/matching/deterministic.py.
use hawiya_ai.Prelude.{Bool, true, false, ◌&&◌, Option, none, some, if◌then◌else◌, is_some}
use hawiya_ai.Text.{Text, text, text_eq}
use hawiya_ai.Date.{Date, date_eq}
use hawiya_ai.Models.{
  Uuid, Confidence, MatchAction, by_emirates_id, by_passport, by_nothing, Person, PersonIdentifier,
  IdentifierType,
}
use hawiya_ai.Matching.Types.{MatchResult}
use hawiya_ai.Database.World.{Action, pure, ◌>>=◌}
use hawiya_ai.Database.Repositories.{present, find_active, get_person}

abbrev pub conf_emirates_id_exact : Confidence
conf_emirates_id_exact = 100

abbrev pub conf_passport_full : Confidence
conf_passport_full = 99

abbrev pub conf_passport_number_only : Confidence
conf_passport_number_only = 90

-- `a and b and a == b`, for texts where an empty one counts as missing, and for dates.
unfoldable pub same_text : Option Text → Option Text → Bool
same_text none b = false
same_text (some a) none = false
same_text (some a) (some b) = text_eq a b

unfoldable pub same_date : Option Date → Option Date → Bool
same_date none b = false
same_date (some a) none = false
same_date (some a) (some b) = date_eq a b

-- `nationality_match` and `dob_match`.
abbrev pub nationality_match : Option Person → Option Text → Bool
nationality_match none nationality = false
nationality_match (some person) nationality =
    same_text (present person.nationality) (present nationality)

abbrev pub dob_match : Option Person → Option Date → Bool
dob_match none date_of_birth = false
dob_match (some person) date_of_birth = same_date person.date_of_birth date_of_birth

unfoldable pub emirates_id_result : PersonIdentifier → MatchResult
emirates_id_result ident = record {
  action = MatchAction.auto_matched;
  person_uuid = some ident.person_uuid;
  confidence = conf_emirates_id_exact;
  method = text "emirates_id_exact";
  features = by_emirates_id;
}

unfoldable pub passport_result :
    PersonIdentifier → (nationality_matches dob_matches : Bool) → MatchResult
passport_result ident nationality_matches dob_matches =
    if nationality_matches && dob_matches
    then record {
      action = MatchAction.auto_matched;
      person_uuid = some ident.person_uuid;
      confidence = conf_passport_full;
      method = text "passport_plus_demographics";
      features = by_passport true true;
    }
    else record {
      action = MatchAction.suggested_match;
      person_uuid = some ident.person_uuid;
      confidence = conf_passport_number_only;
      method = text "passport_number_only";
      features = by_passport nationality_matches dob_matches;
    }

unfoldable pub no_match_result : (emirates_id passport_number : Option Text) → MatchResult
no_match_result emirates_id passport_number = record {
  action = MatchAction.no_match_no_create;
  person_uuid = none;
  confidence = 0;
  method = text "no_deterministic_match";
  features = by_nothing (is_some emirates_id) (is_some passport_number);
}

-- `if value: ident = await find_active(...)`.
abbrev pub lookup : Uuid → IdentifierType → Option Text → Action (Option PersonIdentifier)
lookup tenant_id identifier_type none = pure none
lookup tenant_id identifier_type (some value) = find_active tenant_id identifier_type value

-- Steps 2 and 3, on the identifier that the passport number has found.
unfoldable pub match_passport :
    (tenant_id : Uuid) (emirates_id passport_number nationality : Option Text)
    (date_of_birth : Option Date)
    → Option PersonIdentifier
    → Action MatchResult
match_passport tenant_id emirates_id passport_number nationality date_of_birth none =
    pure (no_match_result emirates_id passport_number)
match_passport tenant_id emirates_id passport_number nationality date_of_birth (some ident) = do
  person ← get_person tenant_id ident.person_uuid
  pure (
      passport_result ident (nationality_match person nationality) (dob_match person date_of_birth))

unfoldable pub match_emirates_id :
    (tenant_id : Uuid) (emirates_id passport_number nationality : Option Text)
    (date_of_birth : Option Date)
    → Option PersonIdentifier
    → Action MatchResult
match_emirates_id tenant_id emirates_id passport_number nationality date_of_birth (some ident) =
    pure (emirates_id_result ident)
match_emirates_id tenant_id emirates_id passport_number nationality date_of_birth none = do
  ident ← lookup tenant_id IdentifierType.passport (present passport_number)
  match_passport tenant_id emirates_id passport_number nationality date_of_birth ident

unfoldable pub match :
    (tenant_id : Uuid) (emirates_id passport_number nationality : Option Text)
    (date_of_birth : Option Date)
    → Action MatchResult
match tenant_id emirates_id passport_number nationality date_of_birth = do
  ident ← lookup tenant_id IdentifierType.emirates_id (present emirates_id)
  match_emirates_id tenant_id emirates_id passport_number nationality date_of_birth ident
