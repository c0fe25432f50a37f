-- ===== src/Api/Persons/Lengths.antt =====
-- How long the texts of the rows are that a creation adds: src/hawiya/db/repositories and
-- src/hawiya/services/person_service.py.
use hawiya_ai.Prelude.{
  ℕ, ◌≤◌, ◌≡◌, refl, true, Option, none, some, [], ◌∷◌, map, leb→le, le→leb, all, and_intro, length,
  arith, not,
}
use hawiya_ai.Text.{Text}
use hawiya_ai.Text.Lengths.{length-strip, length-filter-le, length-translate, length-joined-le}
use hawiya_ai.Text.Unicode.{Unicode}
use hawiya_ai.Models.{Uuid}
use hawiya_ai.Matching.ArabicNames.{
  is_diacritic, alef_trans, yaa_trans, hamza_trans, strip_diacritics, normalize_alef, normalize_yaa,
  normalize_hamza, fold_letters, to_canonical,
}
use hawiya_ai.Matching.Phonetic.{phonetic_key}
use hawiya_ai.Matching.Phonetic.Keys.{phonetic_key-IsKey}
use hawiya_ai.Database.Environment.{Environment}
use hawiya_ai.Database.Repositories.{present, canonical_ar, canonical_en, name_variant}
use hawiya_ai.Database.Columns.{fits, fits_identifier, fits_name_variant}
use hawiya_ai.Services.Person.{NewPerson, variant_of}
use hawiya_ai.Services.Person.Effect.{passport_rows, emirates_id_rows}
use hawiya_ai.Api.Persons.Schema.{at_most, exactly, name_limit}

length-fold_letters : (s : Text) → length (fold_letters s) ≤ length s
unfolding fold_letters normalize_hamza normalize_yaa normalize_alef strip_diacritics
length-fold_letters s =
    let stripped = strip_diacritics s in
    omega (
      arith,
      length-filter-le (λ c. not (is_diacritic c)) s,
      length-translate alef_trans stripped,
      length-translate yaa_trans (normalize_alef stripped),
      length-translate hamza_trans (normalize_yaa (normalize_alef stripped)),
    )

-- The canonical form is no longer than the composition to NFC.
length-to_canonical :
    (u : Unicode) (c : ℕ) (name : Text)
    → length (to_canonical u (c ∷ name)) ≤ length (u.nfc (c ∷ name))
unfolding to_canonical
length-to_canonical u c name = omega (
  arith,
  length-joined-le [] (fold_letters (u.nfc (c ∷ name))),
  length-fold_letters (u.nfc (c ∷ name)),
)

module _ (env : Environment) where
  pub canonical_ar-fits :
      (o : Option Text)
      → ((name : Text) → o ≡ some name → length (env.unicode.nfc name) ≤ 255)
      → fits 255 (canonical_ar env (present o)) ≡ true
  canonical_ar-fits none h = refl
  canonical_ar-fits (some []) h = refl
  canonical_ar-fits (some (c ∷ s)) h =
      le→leb _ 255 (omega (arith, length-to_canonical env.unicode c s, h (c ∷ s) refl))

  pub canonical_en-fits :
      (o : Option Text)
      → at_most name_limit o ≡ true
      → fits 255 (canonical_en env (present o)) ≡ true
  canonical_en-fits none h = refl
  canonical_en-fits (some []) h = refl
  canonical_en-fits (some (c ∷ s)) h =
      le→leb _ 255 (omega (arith, length-strip (c ∷ s), leb→le (length (c ∷ s)) 255 h))

  name_variant-fits :
      (tenant_id person_uuid : Uuid) (name : Text)
      → length name ≤ 255
      → fits_name_variant (name_variant env tenant_id person_uuid name) ≡ true
  unfolding fits_name_variant name_variant
  name_variant-fits tenant_id person_uuid name h =
      and_intro _ _ (le→leb _ 255 (omega (arith, length-strip name, h)))
        (key (phonetic_key env.unicode name) (phonetic_key-IsKey env.unicode name).1)
    where
      key : (s : Text) → length s ≤ 6 → fits 64 (present (some s)) ≡ true
      key [] k = refl
      key (c ∷ s) k = le→leb _ 64 (omega (arith, k))

  pub variant-fits :
      (tenant_id person_uuid : Uuid) (o : Option Text)
      → at_most 255 o ≡ true
      → all fits_name_variant
          (map (name_variant env tenant_id person_uuid) (variant_of (present o)))
        ≡ true
  variant-fits tenant_id person_uuid none h = refl
  variant-fits tenant_id person_uuid (some []) h = refl
  variant-fits tenant_id person_uuid (some (c ∷ s)) h =
      and_intro _ _
        (name_variant-fits tenant_id person_uuid (c ∷ s) (leb→le (length (c ∷ s)) 255 h)) refl

pub exactly-fits : (n : ℕ) (o : Option Text) → exactly n o ≡ true → fits n o ≡ true
exactly-fits n none h = refl
exactly-fits n (some s) h = ground arith

module _ (tenant_id person_uuid : Uuid) (new : NewPerson)
    (country : fits 3 new.issuing_country ≡ true) where
  pub passport_rows-fit :
      (o : Option Text)
      → at_most 64 o ≡ true
      → all fits_identifier (passport_rows tenant_id person_uuid new (present o)) ≡ true
  unfolding fits_identifier
  passport_rows-fit none h = refl
  passport_rows-fit (some []) h = refl
  passport_rows-fit (some (c ∷ s)) h =
      and_intro _ _ (and_intro _ _ h (and_intro _ _ country refl)) refl

  pub emirates_id_rows-fit :
      (o : Option Text)
      → at_most 64 o ≡ true
      → all fits_identifier (emirates_id_rows tenant_id person_uuid (present o)) ≡ true
  unfolding fits_identifier
  emirates_id_rows-fit none h = refl
  emirates_id_rows-fit (some []) h = refl
  emirates_id_rows-fit (some (c ∷ s)) h = and_intro _ _ (and_intro _ _ h refl) refl
