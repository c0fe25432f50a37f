-- ===== src/Services/Person/Effect.antt =====
-- What `PersonService.create` of src/hawiya/services/person_service.py leaves behind, in closed form.
use hawiya_ai.Prelude.{
  ◌≡◌, refl, ◌∙◌, Bool, true, false, Option, none, some, List, [], ◌∷◌, ◌++◌, ok, err, Result,
}
use hawiya_ai.Text.{Text}
use hawiya_ai.Models.{Uuid, Person, PersonIdentifier}
use hawiya_ai.Matching.Types.{MatchResult, is_hit}
use hawiya_ai.Matching.Decision.{decide, match-eq}
use hawiya_ai.Database.Keys.{IsKeyed}
use hawiya_ai.Database.Environment.{Environment}
use hawiya_ai.Database.World.{
  no_rows, World, pure, ◌>>◌, Failure, possible_duplicate, add_identifier, add_audit, flush, both,
}
use hawiya_ai.Database.Repositories.{present, create_identifier}
use hawiya_ai.Database.Effects.{made_person, after_person, create_person-eq}
use hawiya_ai.Services.Base.{write_audit, or_default}
use hawiya_ai.Services.Base.Tenancy.{requires_tenant-own}
use hawiya_ai.Services.Person.{
  NewPerson, seed_variants, passport_row, emirates_id_row, add_passport, add_emirates_id,
  created_row, insert, unless_hit, create_body, create,
}

abbrev pub passport_rows : Uuid → Uuid → NewPerson → Option Text → List PersonIdentifier
passport_rows tenant_id person_uuid new none = []
passport_rows tenant_id person_uuid new (some n) = passport_row tenant_id person_uuid new n ∷ []

abbrev pub emirates_id_rows : Uuid → Uuid → Option Text → List PersonIdentifier
emirates_id_rows tenant_id person_uuid none = []
emirates_id_rows tenant_id person_uuid (some n) = emirates_id_row tenant_id person_uuid n ∷ []

-- The identifiers of a new person.
abbrev pub new_identifiers : Uuid → Uuid → NewPerson → List PersonIdentifier
new_identifiers tenant_id person_uuid new =
    passport_rows tenant_id person_uuid new (present new.passport_number)
    ++ emirates_id_rows tenant_id person_uuid (present new.emirates_id)

module _ (env : Environment) (new : NewPerson) (tenant_id : Uuid) (w : World) where
  abbrev pub inserted : Person
  inserted =
      made_person env tenant_id new.canonical_name_ar new.canonical_name_en new.date_of_birth
        new.nationality new.sex (seed_variants new.canonical_name_ar new.canonical_name_en) w

  abbrev before_flush : World
  before_flush =
      after_person env tenant_id new.canonical_name_ar new.canonical_name_en new.date_of_birth
        new.nationality new.sex (seed_variants new.canonical_name_ar new.canonical_name_en) w

  -- The flush stores the pending rows: the name variants, the identifiers and the audit row.
  abbrev stored_with : List PersonIdentifier → World
  stored_with identifiers = record before_flush {
    stored = both before_flush.stored (record (before_flush.pending) {
      identifiers = identifiers;
      audit_log =
          record (created_row tenant_id inserted.person_uuid) {
            request_id = or_default w.request_id;
          }
          ∷ [];
    });
    pending = no_rows;
  }

  abbrev pub after_insert : World
  after_insert = stored_with (new_identifiers tenant_id inserted.person_uuid new)

  finish_insert :
      (passport_number emirates_id : Option Text)
      → (add_passport tenant_id inserted.person_uuid new passport_number
            >> (add_emirates_id tenant_id inserted.person_uuid emirates_id
                >> (write_audit (created_row tenant_id inserted.person_uuid)
                    >> (flush >> pure inserted))))
          before_flush
        ≡ (
          ok inserted,
          stored_with (
              passport_rows tenant_id inserted.person_uuid new passport_number
              ++ emirates_id_rows tenant_id inserted.person_uuid emirates_id),
        )
  unfolding add_passport add_emirates_id create_identifier add_identifier write_audit add_audit
      flush
  finish_insert none none = refl
  finish_insert none (some e) = refl
  finish_insert (some p) none = refl
  finish_insert (some p) (some e) = refl

  pub insert-eq : insert env new tenant_id w ≡ (ok inserted, after_insert)
  unfolding insert
  insert-eq =
      rw
        (create_person-eq env tenant_id new.canonical_name_ar new.canonical_name_en
          new.date_of_birth new.nationality new.sex
          (seed_variants new.canonical_name_ar new.canonical_name_en) w)
        (finish_insert (present new.passport_number) (present new.emirates_id))

  -- What the duplicate guard decides on.
  abbrev pub guard_result : MatchResult
  guard_result =
      decide w.stored tenant_id new.emirates_id new.passport_number new.nationality
        new.date_of_birth

  abbrev pub guarded : Bool → Result Failure Person × World
  guarded true = (err (possible_duplicate guard_result), w)
  guarded false = (ok inserted, after_insert)

  unless_hit-eq : (hit : Bool) → unless_hit env new tenant_id guard_result hit w ≡ guarded hit
  unfolding unless_hit
  unless_hit-eq true = refl
  unless_hit-eq false = insert-eq

  -- In the tenant's own context and over keyed rows, a creation raises a possible duplicate and
  -- changes nothing if the matcher has a hit, and otherwise inserts the person.
  pub create-eq :
      w.tenant_id ≡ some tenant_id
      → IsKeyed w.stored
      → create env tenant_id new w ≡ guarded (is_hit guard_result.action)
  unfolding create create_body
  create-eq ctx k =
      requires_tenant-own (create_body env new) tenant_id w ctx
      ∙ rw
          (match-eq w k tenant_id new.emirates_id new.passport_number new.nationality
            new.date_of_birth)
          (unless_hit-eq (is_hit guard_result.action))
