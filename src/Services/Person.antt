-- ===== src/Services/Person.antt =====
-- src/hawiya/services/person_service.py; `search` is in Person.Search. The refresh of relationships
-- behind a creation only loads what is already in the tables, and is left out.
pub mod Effect
pub mod Keys
pub mod Duplicates
pub mod Steps
pub mod Registry
pub mod Search
use hawiya_ai.Prelude.{Bool, true, false, Option, none, some, List, [], ◌∷◌, ◌++◌}
use hawiya_ai.Text.{Text, text}
use hawiya_ai.Date.{Date}
use hawiya_ai.Extractors.Types.{Sex}
use hawiya_ai.Models.{
  Uuid, Confidence, str, uuid, Person, PersonIdentifier, IdentifierType, IdentifierStatus, AuditLog,
}
use hawiya_ai.Matching.Types.{MatchResult, is_hit}
use hawiya_ai.Matching.Deterministic.{match}
use hawiya_ai.Database.Environment.{Environment}
use hawiya_ai.Database.World.{Action, pure, raise, ◌>>=◌, ◌>>◌, possible_duplicate, flush}
use hawiya_ai.Database.Repositories.{present, get_person, create_identifier, create_person}
use hawiya_ai.Services.Base.{requires_tenant, write_audit}

-- The arguments of `PersonService.create`.
pub record NewPerson : Type 0 where
  pub canonical_name_ar : Option Text
  pub canonical_name_en : Option Text
  pub date_of_birth : Option Date
  pub nationality : Option Text
  pub sex : Option Sex
  pub passport_number : Option Text
  pub emirates_id : Option Text
  pub issuing_country : Option Text
  pub expiry_date : Option Date

abbrev pub variant_of : Option Text → List Text
variant_of none = []
variant_of (some name) = name ∷ []

-- `_seed_variants`; no variants and the empty list are the same to `create_person`.
unfoldable pub seed_variants : Option Text → Option Text → List Text
seed_variants canonical_name_ar canonical_name_en =
    variant_of (present canonical_name_ar) ++ variant_of (present canonical_name_en)

-- `PersonService.get`.
unfoldable pub get : Uuid → Uuid → Action (Option Person)
get tenant_id person_uuid =
    requires_tenant (λ tenant_id. get_person tenant_id person_uuid) tenant_id

abbrev pub passport_row : Uuid → Uuid → NewPerson → Text → PersonIdentifier
passport_row tenant_id person_uuid new passport_number = record {
  tenant_id = tenant_id;
  person_uuid = person_uuid;
  identifier_type = IdentifierType.passport;
  identifier_value = passport_number;
  issuing_country = new.issuing_country;
  issue_date = none;
  expiry_date = new.expiry_date;
  is_primary = true;
  source = some (text "api_create");
  confidence = none;
  status = IdentifierStatus.active;
}

abbrev pub emirates_id_row : Uuid → Uuid → Text → PersonIdentifier
emirates_id_row tenant_id person_uuid emirates_id = record {
  tenant_id = tenant_id;
  person_uuid = person_uuid;
  identifier_type = IdentifierType.emirates_id;
  identifier_value = emirates_id;
  issuing_country = none;
  issue_date = none;
  expiry_date = none;
  is_primary = false;
  source = some (text "api_create");
  confidence = none;
  status = IdentifierStatus.active;
}

-- `if passport_number: ...` and `if emirates_id: ...`.
unfoldable pub add_passport : Uuid → Uuid → NewPerson → Option Text → Action (Unit {0})
add_passport tenant_id person_uuid new none = pure tt
add_passport tenant_id person_uuid new (some passport_number) =
    create_identifier (passport_row tenant_id person_uuid new passport_number)

unfoldable pub add_emirates_id : Uuid → Uuid → Option Text → Action (Unit {0})
add_emirates_id tenant_id person_uuid none = pure tt
add_emirates_id tenant_id person_uuid (some emirates_id) =
    create_identifier (emirates_id_row tenant_id person_uuid emirates_id)

unfoldable pub created_row : Uuid → Uuid → AuditLog
created_row tenant_id person_uuid = record {
  tenant_id = tenant_id;
  request_id = [];
  user_id = none;
  endpoint = text "/v1/persons";
  input_hash = none;
  output_summary =
      some ((text "person_uuid", uuid person_uuid) ∷ (text "action", str (text "created")) ∷ []);
  model_versions = none;
  confidence = none;
  processing_path = none;
  decision = some (text "created");
}

module _ (env : Environment) where
  -- What `create` does behind the duplicate guard.
  unfoldable pub insert : NewPerson → Uuid → Action Person
  insert new tenant_id = do
    person ←
        create_person env tenant_id new.canonical_name_ar new.canonical_name_en new.date_of_birth
          new.nationality new.sex (seed_variants new.canonical_name_ar new.canonical_name_en)
    add_passport tenant_id person.person_uuid new (present new.passport_number)
    add_emirates_id tenant_id person.person_uuid (present new.emirates_id)
    write_audit (created_row tenant_id person.person_uuid)
    flush
    pure person

  -- The duplicate guard.
  unfoldable pub unless_hit : NewPerson → Uuid → MatchResult → Bool → Action Person
  unless_hit new tenant_id match_result true = raise (possible_duplicate match_result)
  unless_hit new tenant_id match_result false = insert new tenant_id

  unfoldable pub create_body : NewPerson → Uuid → Action Person
  create_body new tenant_id = do
    match_result ←
        match tenant_id new.emirates_id new.passport_number new.nationality new.date_of_birth
    unless_hit new tenant_id match_result (is_hit match_result.action)

  -- `PersonService.create`.
  unfoldable pub create : Uuid → NewPerson → Action Person
  create tenant_id new = requires_tenant (create_body new) tenant_id
