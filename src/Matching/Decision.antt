-- ===== src/Matching/Decision.antt =====
-- The matcher of src/hawiya/matching/deterministic.py as a function of the stored rows.
use hawiya_ai.Prelude.{
  ◌≤◌, ◌≡◌, refl, Option, none, some, List, [], ◌∷◌, ok, arith, head?, filter, length,
}
use hawiya_ai.Text.{Text}
use hawiya_ai.Date.{Date}
use hawiya_ai.Models.{Uuid, Person, PersonIdentifier, IdentifierType}
use hawiya_ai.Matching.Types.{MatchResult}
use hawiya_ai.Matching.Deterministic.{
  match, match_emirates_id, match_passport, lookup, nationality_match, dob_match,
  emirates_id_result, passport_result, no_match_result,
}
use hawiya_ai.Database.World.{World, Tables}
use hawiya_ai.Database.Keys.{IsKeyed}
use hawiya_ai.Database.Repositories.{
  present, scalar_one_or_none, is_active_as, find_active, is_person, get_person,
}

-- The active identifier of a value, and the person of an id.
abbrev pub active : Tables → Uuid → IdentifierType → Option Text → Option PersonIdentifier
active t tenant_id ty none = none
active t tenant_id ty (some value) = head? (filter (is_active_as tenant_id ty value) t.identifiers)

abbrev pub person_of : Tables → Uuid → Uuid → Option Person
person_of t tenant_id person_uuid = head? (filter (is_person tenant_id person_uuid) t.persons)

-- The decision on the two lookups.
abbrev pub decide_passport :
    (t : Tables) (tenant_id : Uuid) (emirates_id passport_number nationality : Option Text)
    (date_of_birth : Option Date)
    → Option PersonIdentifier
    → MatchResult
decide_passport t tenant_id emirates_id passport_number nationality date_of_birth none =
    no_match_result emirates_id passport_number
decide_passport t tenant_id emirates_id passport_number nationality date_of_birth (some ident) =
    let person = person_of t tenant_id ident.person_uuid in
    passport_result ident (nationality_match person nationality) (dob_match person date_of_birth)

abbrev pub decide_emirates_id :
    (t : Tables) (tenant_id : Uuid) (emirates_id passport_number nationality : Option Text)
    (date_of_birth : Option Date)
    → Option PersonIdentifier
    → MatchResult
decide_emirates_id t tenant_id emirates_id passport_number nationality date_of_birth (some ident) =
    emirates_id_result ident
decide_emirates_id t tenant_id emirates_id passport_number nationality date_of_birth none =
    decide_passport t tenant_id emirates_id passport_number nationality date_of_birth
      (active t tenant_id IdentifierType.passport (present passport_number))

unfoldable pub decide :
    (t : Tables) (tenant_id : Uuid) (emirates_id passport_number nationality : Option Text)
    (date_of_birth : Option Date)
    → MatchResult
decide t tenant_id emirates_id passport_number nationality date_of_birth =
    decide_emirates_id t tenant_id emirates_id passport_number nationality date_of_birth
      (active t tenant_id IdentifierType.emirates_id (present emirates_id))

scalar-eq :
    {A : Type 0} (rows : List A) (w : World)
    → length rows ≤ 1
    → scalar_one_or_none rows w ≡ (ok (head? rows), w)
scalar-eq [] w h = refl
scalar-eq (row ∷ []) w h = refl
scalar-eq (row ∷ other ∷ rows) w h = absurd (omega arith)

module _ (w : World) (k : IsKeyed w.stored) (tenant_id : Uuid) where
  pub lookup-eq :
      (ty : IdentifierType) (value : Option Text)
      → lookup tenant_id ty value w ≡ (ok (active w.stored tenant_id ty value), w)
  unfolding find_active
  lookup-eq ty none = refl
  lookup-eq ty (some value) = scalar-eq _ w (k.identifiers tenant_id ty value)

  pub get_person-eq :
      (person_uuid : Uuid)
      → get_person tenant_id person_uuid w ≡ (ok (person_of w.stored tenant_id person_uuid), w)
  unfolding get_person
  get_person-eq person_uuid = scalar-eq _ w (k.persons tenant_id person_uuid)

  module _ (emirates_id passport_number nationality : Option Text)
      (date_of_birth : Option Date) where
    match_passport-eq :
        (ident : Option PersonIdentifier)
        → match_passport tenant_id emirates_id passport_number nationality date_of_birth ident w ≡ (
          ok (
              decide_passport w.stored tenant_id emirates_id passport_number nationality
                date_of_birth ident),
          w,
        )
    unfolding match_passport
    match_passport-eq none = refl
    match_passport-eq (some ident) = rw (get_person-eq ident.person_uuid)

    match_emirates_id-eq :
        (ident : Option PersonIdentifier)
        → match_emirates_id tenant_id emirates_id passport_number nationality date_of_birth ident w
          ≡ (
            ok (
                decide_emirates_id w.stored tenant_id emirates_id passport_number nationality
                  date_of_birth ident),
            w,
          )
    unfolding match_emirates_id
    match_emirates_id-eq none =
        rw (lookup-eq IdentifierType.passport (present passport_number)) (match_passport-eq _)
    match_emirates_id-eq (some ident) = refl

    -- Over keyed rows the matcher never raises and changes nothing, and its result is the decision
    -- on the first active row under each number and on the person that it refers to.
    pub match-eq :
        match tenant_id emirates_id passport_number nationality date_of_birth w
        ≡ (ok (decide w.stored tenant_id emirates_id passport_number nationality date_of_birth), w)
    unfolding match decide
    match-eq =
        rw (lookup-eq IdentifierType.emirates_id (present emirates_id)) (match_emirates_id-eq _)
