-- ===== src/Tests/Sample.antt =====
-- Concrete inputs: ASCII as the only script, UUIDs that count up, and a tenant with one person.
use hawiya_ai.Prelude.{
  ℕ, ◌-◌, ◌<◌, ◌≡◌, refl, sym, ap, ok_injective, true, false, ◌&&◌, none, some, List, [], ◌∷◌,
  arith, leb, ok, length, if◌then◌else◌,
}
use hawiya_ai.Text.{Text, text}
use hawiya_ai.Text.Unicode.{Unicode}
use hawiya_ai.Extractors.Types.{Sex}
use hawiya_ai.Models.{Person, PersonIdentifier, PersonStatus, IdentifierType, IdentifierStatus}
use hawiya_ai.Database.Environment.{Environment}
use hawiya_ai.Database.World.{World, Tables, no_rows}
use hawiya_ai.Database.Keys.{IsKeyed, IsFresh, length-filter-add, persons-add, unused-add}
use hawiya_ai.Database.Repositories.{is_active_as}
use hawiya_ai.Scripts.PassportImage.{Passport}
use hawiya_ai.Services.Extraction.Effect.{IsTd3Adapter}
use hawiya_ai.Services.Person.{NewPerson}

abbrev pub ascii_upper : ℕ → List ℕ
ascii_upper c = if leb 97 c && leb c 122 then (c - 32) ∷ [] else c ∷ []

pub ascii_upper-kept : (c : ℕ) → c < 97 → ascii_upper c ≡ c ∷ []
ascii_upper-kept c h = ground arith

abbrev pub ascii : Unicode
ascii = record {
  decimal = λ c. if leb 48 c && leb c 57 then some (c - 48) else none;
  other_digit = λ c. false;
  upper = ascii_upper;
  casefold = λ c. c ∷ [];
  is_alpha = λ c. leb 65 c && leb c 90;
  nfc = λ s. s;
  decimal_ascii = λ c h. refl;
  other_digit_ascii = λ c h. refl;
  upper_kept = ascii_upper-kept;
}

abbrev pub line1 : Text
line1 = text "P<UTOERIKSSON<<ANNA<MARIA<<<<<<<<<<<<<<<<<<<"

abbrev pub line2 : Text
line2 = text "L898902C36UTO7408122F1204159ZE184226B<<<<<10"

abbrev pub environment : Environment
environment = record {
  unicode = ascii;
  this_year = 2026;
  uuid4 = λ n. n;
  sha256 = λ payload. text "e3b0c442";
  read_mrz = λ payload content_type. ok (line1, line2);
  elapsed_ms = 7;
  uuid4_injective = λ m n h. h;
}

-- The two lines are as long as the adapter promises.
pub environment-IsTd3Adapter : IsTd3Adapter environment
environment-IsTd3Adapter = record {
  lengths = λ payload content_type a b h.
      let e = ok_injective h in
      (ap length (sym (ap (λ p. p.0) e)), ap length (sym (ap (λ p. p.1) e)));
}

abbrev pub anna : Passport
anna = record {
  issuing = text "UTO";
  nationality = text "UTO";
  surname = text "ERIKSSON";
  given = text "ANNA MARIA";
  passport_number = text "L898902C3";
  dob = text "740812";
  sex = text "F";
  expiry = text "120415";
  personal = text "ZE184226B";
}

abbrev pub person : Person
person = record {
  person_uuid = 0;
  tenant_id = 1;
  canonical_name_ar = none;
  canonical_name_en = some (text "ANNA MARIA ERIKSSON");
  date_of_birth = some (record { year = 1974; month = 8; day = 12 });
  nationality = some (text "UTO");
  sex = some Sex.female;
  status = PersonStatus.active;
  merged_into = none;
}

abbrev pub identifier : PersonIdentifier
identifier = record {
  tenant_id = 1;
  person_uuid = 0;
  identifier_type = IdentifierType.passport;
  identifier_value = text "L898902C3";
  issuing_country = none;
  issue_date = none;
  expiry_date = none;
  is_primary = true;
  source = none;
  confidence = none;
  status = IdentifierStatus.active;
}

abbrev pub tables : Tables
tables = record no_rows { persons = person ∷ []; identifiers = identifier ∷ [] }

pub tables-IsKeyed : IsKeyed tables
tables-IsKeyed = record {
  identifiers = λ tenant_id ty value.
      length-filter-add (is_active_as tenant_id ty value) [] identifier (omega arith) (λ h. refl);
  persons = persons-add environment 0 [] person refl (λ m h t. refl) (λ t u. omega arith);
}

pub tables-IsFresh : IsFresh environment 1 tables
tables-IsFresh = record { unused = unused-add environment 0 [] person refl (λ m h t. refl) }

-- The state of a request of tenant 1, and of one of tenant 2.
abbrev pub world : World
world = record {
  tenant_id = some 1;
  request_id = some (text "r1");
  stored = tables;
  pending = no_rows;
  drawn = 1;
}

-- A body that tenant 1 has no match for.
abbrev pub body : NewPerson
body = record {
  canonical_name_ar = none;
  canonical_name_en = some (text "John Smith");
  date_of_birth = none;
  nationality = none;
  sex = none;
  passport_number = some (text "P1");
  emirates_id = some (text "784");
  issuing_country = none;
  expiry_date = none;
}
