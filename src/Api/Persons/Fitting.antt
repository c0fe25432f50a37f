-- ===== src/Api/Persons/Fitting.antt =====
-- A body that the schema of src/hawiya/api/persons.py accepts, and the columns of the tables.
use hawiya_ai.Api.Persons.Lengths.{
  canonical_ar-fits, canonical_en-fits, variant-fits, exactly-fits, passport_rows-fit,
  emirates_id_rows-fit,
}
use hawiya_ai.Prelude.{
  ◌≤◌, ◌≡◌, refl, sym, ◌∙◌, ap, Bool, true, false, Option, some, ◌++◌, map, all, all-append,
  and-true, and_intro, length,
}
use mathlib.Core.Path.{subst}
use mathlib.Core.List.{append-nil, append_assoc, map-append}
use hawiya_ai.Text.{Text}
use hawiya_ai.Models.{Uuid}
use hawiya_ai.Database.Environment.{Environment}
use hawiya_ai.Database.Repositories.{present, name_variant}
use hawiya_ai.Database.Columns.{fits_person, fits_identifier, fits_name_variant, IsFitting}
use hawiya_ai.Database.World.{World, Tables, both}
use hawiya_ai.Matching.Types.{is_hit}
use hawiya_ai.Services.Person.{NewPerson, variant_of, seed_variants, create}
use hawiya_ai.Services.Person.Effect.{
  passport_rows, emirates_id_rows, inserted, after_insert, guarded, guard_result, create-eq,
}
use hawiya_ai.Services.Person.Keys.{identifiers_after, persons_after}
use hawiya_ai.Services.Person.Duplicates.{IsReady}
use hawiya_ai.Api.Persons.Schema.{is_valid, at_most, exactly}

module _ (env : Environment) (tenant_id : Uuid) (new : NewPerson) (w : World)
    (ready : IsReady env tenant_id w) (valid : is_valid new ≡ true)
    (composed : (name : Text)
      → new.canonical_name_ar ≡ some name
      → length (env.unicode.nfc name) ≤ 255) where
  abbrev person_uuid : Uuid
  person_uuid = env.uuid4 w.drawn

  abbrev after : World
  after = after_insert env new tenant_id w

  abbrev parts :
      (at_most 255 new.canonical_name_ar ≡ true)
      × (at_most 255 new.canonical_name_en ≡ true)
      × (exactly 3 new.nationality ≡ true)
      × (at_most 64 new.passport_number ≡ true)
      × (at_most 64 new.emirates_id ≡ true)
      × (exactly 3 new.issuing_country ≡ true)
  unfolding is_valid
  parts =
      let (ar, rest) = and-true _ _ valid in
      let (en, rest') = and-true _ _ rest in
      let (nationality, rest'') = and-true _ _ rest' in
      let (passport, rest''') = and-true _ _ rest'' in
      let (emirates_id, country) = and-true _ _ rest''' in
      (ar, en, nationality, passport, emirates_id, country)

  person-fits : fits_person (inserted env new tenant_id w) ≡ true
  unfolding fits_person
  person-fits =
      let (ar, en, nationality, _, _, _) = parts in
      and_intro _ _ (canonical_ar-fits env new.canonical_name_ar composed) (
        and_intro _ _ (canonical_en-fits env new.canonical_name_en en)
          (exactly-fits 3 new.nationality nationality))

  identifiers-fit :
      all fits_identifier (
        passport_rows tenant_id person_uuid new (present new.passport_number)
        ++ emirates_id_rows tenant_id person_uuid (present new.emirates_id))
      ≡ true
  identifiers-fit =
      let (_, _, _, passport, emirates_id, country) = parts in
      let fits_country = exactly-fits 3 new.issuing_country country in
      all-append fits_identifier
        (passport_rows tenant_id person_uuid new (present new.passport_number)) _
      ∙ and_intro _ _
          (passport_rows-fit tenant_id person_uuid new fits_country new.passport_number passport)
          (emirates_id_rows-fit tenant_id person_uuid new fits_country new.emirates_id emirates_id)

  variants-fit :
      (ar en : Option Text)
      → at_most 255 ar ≡ true
      → at_most 255 en ≡ true
      → all fits_name_variant (
          map
            (name_variant env tenant_id person_uuid)
            (variant_of (present ar) ++ variant_of (present en)))
        ≡ true
  variants-fit ar en h k =
      ap (all fits_name_variant)
        (map-append (name_variant env tenant_id person_uuid) (variant_of (present ar)) _)
      ∙ all-append fits_name_variant _ _
      ∙ and_intro _ _ (variant-fits env tenant_id person_uuid ar h)
          (variant-fits env tenant_id person_uuid en k)

  variants_after :
      after.stored.name_variants
      ≡ w.stored.name_variants
        ++ map (name_variant env tenant_id person_uuid) (
            variant_of (present new.canonical_name_ar)
            ++ variant_of (present new.canonical_name_en))
  unfolding both seed_variants
  variants_after =
      let rows = map (name_variant env tenant_id person_uuid) (
        variant_of (present new.canonical_name_ar) ++ variant_of (present new.canonical_name_en)) in
      ap (λ (t : Tables). (w.stored.name_variants ++ t.name_variants) ++ rows) ready.clean
      ∙ ap (λ l. l ++ rows) (append-nil w.stored.name_variants)

  inserted-IsFitting : IsFitting w.stored → IsFitting after.stored
  inserted-IsFitting fitting = record {
    persons =
        ap (all fits_person) (persons_after env new tenant_id w ready.clean)
        ∙ all-append fits_person w.stored.persons _
        ∙ and_intro _ _ fitting.persons (and_intro _ _ person-fits refl);
    identifiers =
        ap (all fits_identifier) (
          identifiers_after env new tenant_id w ready.clean ∙ append_assoc w.stored.identifiers _ _)
        ∙ all-append fits_identifier w.stored.identifiers _
        ∙ and_intro _ _ fitting.identifiers identifiers-fit;
    name_variants =
        let (ar, en, _, _, _, _) = parts in
        ap (all fits_name_variant) variants_after
        ∙ all-append fits_name_variant w.stored.name_variants _
        ∙ and_intro _ _ fitting.name_variants
            (variants-fit new.canonical_name_ar new.canonical_name_en ar en);
  }

  guarded-IsFitting :
      (hit : Bool) → IsFitting w.stored → IsFitting (guarded env new tenant_id w hit).1.stored
  guarded-IsFitting true fitting = fitting
  guarded-IsFitting false fitting = inserted-IsFitting fitting

  -- From a state where the tenant's context is set, nothing is pending, the rows are keyed and the
  -- UUIDs still to be drawn are unused: if the schema accepts the body, the composition of its Arabic
  -- name to NFC has at most 255 characters, and every text of the stored persons, identifiers and name
  -- variants fits its column, then so it is behind the creation.
  pub create-IsFitting : IsFitting w.stored → IsFitting (create env tenant_id new w).1.stored
  create-IsFitting fitting =
      subst (λ r. IsFitting r.1.stored)
        (sym (create-eq env new tenant_id w ready.context ready.keyed))
        (guarded-IsFitting (is_hit (guard_result env new tenant_id w).action) fitting)
