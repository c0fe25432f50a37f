-- ===== src/Database/Columns.antt =====
-- How long a text may be in a column of the person registry: src/hawiya/db/migrations/versions/0003.
use hawiya_ai.Prelude.{ℕ, ◌≡◌, Bool, true, ◌&&◌, Option, none, some, leb, all, length}
use hawiya_ai.Text.{Text}
use hawiya_ai.Models.{Person, PersonIdentifier, PersonNameVariant}
use hawiya_ai.Database.World.{Tables}

-- `sa.String(length=n)`, for a column that may be null.
abbrev pub fits : ℕ → Option Text → Bool
fits n none = true
fits n (some s) = leb (length s) n

unfoldable pub fits_person : Person → Bool
fits_person row =
    fits 255 row.canonical_name_ar && (fits 255 row.canonical_name_en && fits 3 row.nationality)

unfoldable pub fits_identifier : PersonIdentifier → Bool
fits_identifier row =
    leb (length row.identifier_value) 64 && (fits 3 row.issuing_country && fits 64 row.source)

unfoldable pub fits_name_variant : PersonNameVariant → Bool
fits_name_variant row = leb (length row.name_value) 255 && fits 64 row.phonetic_key

-- Every row of the registry fits its columns.
pub record IsFitting (t : Tables) : Type 0 where
  pub persons : all fits_person t.persons ≡ true
  pub identifiers : all fits_identifier t.identifiers ≡ true
  pub name_variants : all fits_name_variant t.name_variants ≡ true
