-- ===== src/Api/Persons/Reply.antt =====
-- The reply of the person routes of src/hawiya/api/persons.py. A UUID stands for its text, and the times
-- that the server fills in are left out.
use hawiya_ai.Prelude.{Bool, Option, none, some, List, map, filter, ◌==◌}
use hawiya_ai.Text.{Text, text}
use hawiya_ai.Date.{Date, isoformat}
use hawiya_ai.Extractors.Types.{Sex, male, female, unspecified}
use hawiya_ai.Models.{
  Uuid, Person, PersonStatus, PersonIdentifier, IdentifierType, PersonNameVariant, NameScript,
  NameVariantType,
}
use hawiya_ai.Database.World.{Tables, Action, pure, gets, ◌>>=◌}
use hawiya_ai.Api.Types.{Response, reply, error}

pub record IdentifierResponse : Type 0 where
  pub identifier_type : Text
  pub identifier_value : Text
  pub issuing_country : Option Text
  pub expiry_date : Option Text
  pub is_primary : Bool

pub record NameVariantResponse : Type 0 where
  pub name_value : Text
  pub script : Text
  pub variant_type : Text

pub record PersonResponse : Type 0 where
  pub person_uuid : Uuid
  pub canonical_name_ar : Option Text
  pub canonical_name_en : Option Text
  pub date_of_birth : Option Text
  pub nationality : Option Text
  pub sex : Option Text
  pub status : Text
  pub identifiers : List IdentifierResponse
  pub name_variants : List NameVariantResponse

-- The values of the enumerations.
abbrev sex_value : Sex → Text
sex_value male = text "M"
sex_value female = text "F"
sex_value unspecified = text "X"

abbrev sex_or_none : Option Sex → Option Text
sex_or_none none = none
sex_or_none (some sex) = some (sex_value sex)

abbrev status_value : PersonStatus → Text
status_value PersonStatus.active = text "active"
status_value PersonStatus.merged = text "merged"
status_value PersonStatus.archived = text "archived"

abbrev type_value : IdentifierType → Text
type_value IdentifierType.passport = text "passport"
type_value IdentifierType.emirates_id = text "emirates_id"
type_value IdentifierType.gcc_id = text "gcc_id"
type_value IdentifierType.prior_passport = text "prior_passport"

abbrev script_value : NameScript → Text
script_value NameScript.arabic = text "arabic"
script_value NameScript.latin = text "latin"
script_value NameScript.other = text "other"

abbrev variant_value : NameVariantType → Text
variant_value NameVariantType.canonical = text "canonical"
variant_value NameVariantType.transliteration = text "transliteration"
variant_value NameVariantType.alias = text "alias"
variant_value NameVariantType.mrz = text "mrz"

-- `d.isoformat() if d else None`.
abbrev pub iso_or_none : Option Date → Option Text
iso_or_none none = none
iso_or_none (some d) = some (isoformat d)

abbrev identifier_response : PersonIdentifier → IdentifierResponse
identifier_response i = record {
  identifier_type = type_value i.identifier_type;
  identifier_value = i.identifier_value;
  issuing_country = i.issuing_country;
  expiry_date = iso_or_none i.expiry_date;
  is_primary = i.is_primary;
}

abbrev variant_response : PersonNameVariant → NameVariantResponse
variant_response v = record {
  name_value = v.name_value;
  script = script_value v.script;
  variant_type = variant_value v.variant_type;
}

-- `_to_response`; the relationships are the rows with the person's key.
unfoldable pub to_response : Tables → Person → PersonResponse
to_response tables person = record {
  person_uuid = person.person_uuid;
  canonical_name_ar = person.canonical_name_ar;
  canonical_name_en = person.canonical_name_en;
  date_of_birth = iso_or_none person.date_of_birth;
  nationality = person.nationality;
  sex = sex_or_none person.sex;
  status = status_value person.status;
  identifiers =
      map identifier_response
        (filter (λ row. row.person_uuid == person.person_uuid) tables.identifiers);
  name_variants =
      map variant_response
        (filter (λ row. row.person_uuid == person.person_uuid) tables.name_variants);
}

-- `return _to_response(person)`, and an error response as it is.
abbrev pub serialised : Response Person → Action (Response PersonResponse)
serialised (reply person) = do
  tables ← gets (λ w. w.stored)
  pure (reply (to_response tables person))
serialised (error e) = pure (error e)
