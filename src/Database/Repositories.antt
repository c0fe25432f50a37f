-- ===== src/Database/Repositories.antt =====
-- src/hawiya/db/repositories: access to persons and identifiers, each query scoped to a tenant.
use hawiya_ai.Prelude.{
  ℕ, ◌+◌, Bool, true, false, ◌&&◌, Option, none, some, List, [], ◌∷◌, filter, ◌==◌, if◌then◌else◌,
}
use hawiya_ai.Text.{Text, text_eq}
use hawiya_ai.Text.Strip.{strip}
use hawiya_ai.Date.{Date}
use hawiya_ai.Extractors.Types.{Sex}
use hawiya_ai.Models.{
  Uuid, Person, PersonIdentifier, PersonNameVariant, IdentifierType, IdentifierStatus, NameScript,
  NameVariantType, PersonStatus,
}
use hawiya_ai.Matching.ArabicNames.{to_canonical, is_arabic_script}
use hawiya_ai.Matching.Phonetic.{phonetic_key}
use hawiya_ai.Database.Environment.{Environment}
use hawiya_ai.Database.World.{
  Action, pure, raise, gets, modify, ◌>>=◌, ◌>>◌, multiple_results, add_person, add_identifier,
  add_variant, flush,
}

-- `value or None` for a text: an empty text counts as missing, as it does in a Python `if`.
abbrev pub present : Option Text → Option Text
present none = none
present (some []) = none
present (some (c ∷ s)) = some (c ∷ s)

abbrev pub type_rank : IdentifierType → ℕ
type_rank IdentifierType.passport = 0
type_rank IdentifierType.emirates_id = 1
type_rank IdentifierType.gcc_id = 2
type_rank IdentifierType.prior_passport = 3

abbrev pub type_eq : IdentifierType → IdentifierType → Bool
type_eq a b = type_rank a == type_rank b

abbrev pub is_active : IdentifierStatus → Bool
is_active IdentifierStatus.active = true
is_active IdentifierStatus.archived = false

-- `Result.scalar_one_or_none()`.
abbrev pub scalar_one_or_none : {A : Type 0} → List A → Action (Option A)
scalar_one_or_none [] = pure none
scalar_one_or_none (row ∷ []) = pure (some row)
scalar_one_or_none (row ∷ other ∷ rows) = raise multiple_results

-- The WHERE of `find_active`.
unfoldable pub is_active_as : Uuid → IdentifierType → Text → PersonIdentifier → Bool
is_active_as tenant_id identifier_type identifier_value row =
    (row.tenant_id == tenant_id)
    && (type_eq row.identifier_type identifier_type
        && (text_eq row.identifier_value identifier_value && is_active row.status))

-- `PersonIdentifierRepository.find_active`.
unfoldable pub find_active : Uuid → IdentifierType → Text → Action (Option PersonIdentifier)
find_active tenant_id identifier_type identifier_value = do
  rows ← gets (λ w. w.stored.identifiers)
  scalar_one_or_none (filter (is_active_as tenant_id identifier_type identifier_value) rows)

-- `PersonIdentifierRepository.create`; the row is given as the fields that callers set.
unfoldable pub create_identifier : PersonIdentifier → Action (Unit {0})
create_identifier row = add_identifier (record row { status = IdentifierStatus.active })

unfoldable pub is_person : Uuid → Uuid → Person → Bool
is_person tenant_id person_uuid row =
    (row.tenant_id == tenant_id) && (row.person_uuid == person_uuid)

-- `PersonRepository.get`.
unfoldable pub get_person : Uuid → Uuid → Action (Option Person)
get_person tenant_id person_uuid = do
  rows ← gets (λ w. w.stored.persons)
  scalar_one_or_none (filter (is_person tenant_id person_uuid) rows)

module _ (env : Environment) where
  open env use {unicode, uuid4}

  -- `uuid.uuid4()`.
  unfoldable pub draw_uuid : Action Uuid
  draw_uuid = do
    n ← gets (λ w. w.drawn)
    modify (λ w. record w { drawn = w.drawn + 1 })
    pure (uuid4 n)

  abbrev pub canonical_ar : Option Text → Option Text
  canonical_ar none = none
  canonical_ar (some name) = some (to_canonical unicode name)

  abbrev pub canonical_en : Option Text → Option Text
  canonical_en none = none
  canonical_en (some name) = some (strip name)

  -- `_add_name_variant`, with its defaults: a canonical variant, in the script of the name.
  unfoldable pub name_variant : Uuid → Uuid → Text → PersonNameVariant
  name_variant tenant_id person_uuid name_value = record {
    tenant_id = tenant_id;
    person_uuid = person_uuid;
    name_value = strip name_value;
    script = if is_arabic_script name_value then NameScript.arabic else NameScript.latin;
    variant_type = NameVariantType.canonical;
    phonetic_key = present (some (phonetic_key unicode name_value));
  }

  unfoldable pub add_name_variants : Uuid → Uuid → List Text → Action (Unit {0})
  add_name_variants tenant_id person_uuid [] = pure tt
  add_name_variants tenant_id person_uuid (name ∷ names) = do
    add_variant (name_variant tenant_id person_uuid name)
    add_name_variants tenant_id person_uuid names

  -- `PersonRepository.create`: the name variants are added behind the flush of the person.
  unfoldable pub create_person :
      (tenant_id : Uuid) (canonical_name_ar canonical_name_en : Option Text)
      (date_of_birth : Option Date) (nationality : Option Text) (sex : Option Sex)
      (name_variants : List Text)
      → Action Person
  create_person tenant_id canonical_name_ar canonical_name_en date_of_birth nationality sex
        name_variants =
      do
        person_uuid ← draw_uuid
        let person : Person = record {
          person_uuid = person_uuid;
          tenant_id = tenant_id;
          canonical_name_ar = canonical_ar (present canonical_name_ar);
          canonical_name_en = canonical_en (present canonical_name_en);
          date_of_birth = date_of_birth;
          nationality = nationality;
          sex = sex;
          status = PersonStatus.active;
          merged_into = none;
        }
        add_person person
        flush
        add_name_variants tenant_id person_uuid name_variants
        pure person
