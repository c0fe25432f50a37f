-- ===== src/Matching/Isolation.antt =====
-- The matcher and the person lookup read the rows of their tenant only.
use hawiya_ai.Prelude.{Option, none, some}
use hawiya_ai.Text.{Text}
use hawiya_ai.Date.{Date}
use hawiya_ai.Models.{Uuid, PersonIdentifier, IdentifierType}
use hawiya_ai.Matching.Deterministic.{
  match, match_emirates_id, match_passport, lookup, passport_result, no_match_result,
  emirates_id_result, nationality_match, dob_match,
}
use hawiya_ai.Database.World.{World, pure}
use hawiya_ai.Database.Repositories.{present, get_person}
use hawiya_ai.Database.Reads.{
  IsSameRead, pure-IsSameRead, bind-IsSameRead, IsSameTenant, find_active-IsSameRead,
  get_person-IsSameRead,
}

module _ (tenant_id : Uuid) (w v : World) (same : IsSameTenant tenant_id w v) where
  lookup-IsSameRead :
      (ty : IdentifierType) (value : Option Text) → IsSameRead (lookup tenant_id ty value) w v
  lookup-IsSameRead ty none = pure-IsSameRead none w v
  lookup-IsSameRead ty (some value) = find_active-IsSameRead tenant_id w v same ty value

  module _ (emirates_id passport_number nationality : Option Text) (dob : Option Date) where
    match_passport-IsSameRead :
        (ident : Option PersonIdentifier)
        → IsSameRead
            (match_passport tenant_id emirates_id passport_number nationality dob ident)
            w
            v
    unfolding match_passport
    match_passport-IsSameRead none =
        pure-IsSameRead (no_match_result emirates_id passport_number) w v
    match_passport-IsSameRead (some ident) =
        bind-IsSameRead (get_person tenant_id ident.person_uuid)
          (λ person.
            pure
              (passport_result ident (nationality_match person nationality) (dob_match person dob)))
          w v (get_person-IsSameRead tenant_id w v same ident.person_uuid)
          λ person.
            pure-IsSameRead
              (passport_result ident (nationality_match person nationality) (dob_match person dob))
              w v

    match_emirates_id-IsSameRead :
        (ident : Option PersonIdentifier)
        → IsSameRead
            (match_emirates_id tenant_id emirates_id passport_number nationality dob ident)
            w
            v
    unfolding match_emirates_id
    match_emirates_id-IsSameRead (some ident) = pure-IsSameRead (emirates_id_result ident) w v
    match_emirates_id-IsSameRead none =
        bind-IsSameRead (lookup tenant_id IdentifierType.passport (present passport_number))
          (match_passport tenant_id emirates_id passport_number nationality dob) w v
          (lookup-IsSameRead IdentifierType.passport (present passport_number))
          match_passport-IsSameRead

    -- In two states that hold the same identifiers and the same persons of a tenant, the matcher
    -- gives the same result or raises the same error for that tenant, and it changes neither state.
    pub match-IsSameRead :
        IsSameRead (match tenant_id emirates_id passport_number nationality dob) w v
    unfolding match
    match-IsSameRead =
        bind-IsSameRead (lookup tenant_id IdentifierType.emirates_id (present emirates_id))
          (match_emirates_id tenant_id emirates_id passport_number nationality dob) w v
          (lookup-IsSameRead IdentifierType.emirates_id (present emirates_id))
          match_emirates_id-IsSameRead
