-- ===== src/Database/Effects.antt =====
-- What the repositories of src/hawiya/db/repositories leave behind, in closed form.
use hawiya_ai.Prelude.{◌+◌, ◌≡◌, sym, ◌∙◌, ap, Option, none, List, [], ◌∷◌, ◌++◌, map, ok}
use mathlib.Core.List.{append_assoc, append-nil}
use hawiya_ai.Text.{Text}
use hawiya_ai.Date.{Date}
use hawiya_ai.Extractors.Types.{Sex}
use hawiya_ai.Models.{Uuid, Person, PersonNameVariant, PersonStatus}
use hawiya_ai.Database.Environment.{Environment}
use hawiya_ai.Database.World.{no_rows, World, add_variant, add_person, flush, both}
use hawiya_ai.Database.Repositories.{
  present, canonical_ar, canonical_en, name_variant, add_name_variants, draw_uuid, create_person,
}

abbrev pub with_variants : World → List PersonNameVariant → World
with_variants w rows = record w {
  pending = record (w.pending) { name_variants = w.pending.name_variants ++ rows };
}

module _ (env : Environment) (tenant_id : Uuid) where
  add_name_variants-eq :
      (person_uuid : Uuid) (names : List Text) (w : World)
      → add_name_variants env tenant_id person_uuid names w
        ≡ (ok tt, with_variants w (map (name_variant env tenant_id person_uuid) names))
  unfolding add_name_variants add_variant
  add_name_variants-eq person_uuid [] w =
      ap
        (λ (rows : List PersonNameVariant).
          (ok tt, record w { pending = record (w.pending) { name_variants = rows } }))
        (sym (append-nil w.pending.name_variants))
  add_name_variants-eq person_uuid (name ∷ names) w =
      add_name_variants-eq person_uuid names
        (with_variants w (name_variant env tenant_id person_uuid name ∷ []))
      ∙ ap
          (λ (rows : List PersonNameVariant).
            (ok tt, record w { pending = record (w.pending) { name_variants = rows } }))
          (append_assoc w.pending.name_variants _ _)

  module _ (ar en : Option Text) (dob : Option Date) (nationality : Option Text) (sex : Option Sex)
      (names : List Text) (w : World) where
    -- The person that a creation makes, with the next UUID.
    abbrev pub made_person : Person
    made_person = record {
      person_uuid = env.uuid4 w.drawn;
      tenant_id = tenant_id;
      canonical_name_ar = canonical_ar env (present ar);
      canonical_name_en = canonical_en env (present en);
      date_of_birth = dob;
      nationality = nationality;
      sex = sex;
      status = PersonStatus.active;
      merged_into = none;
    }

    -- The state behind it: what was pending is stored, and only the name variants are pending.
    abbrev pub after_person : World
    after_person = record w {
      stored =
          both w.stored (record (w.pending) { persons = w.pending.persons ++ made_person ∷ [] });
      pending = record no_rows {
        name_variants = map (name_variant env tenant_id (env.uuid4 w.drawn)) names;
      };
      drawn = w.drawn + 1;
    }

    pub create_person-eq :
        create_person env tenant_id ar en dob nationality sex names w
        ≡ (ok made_person, after_person)
    unfolding create_person draw_uuid add_person flush
    create_person-eq = rw add_name_variants-eq
