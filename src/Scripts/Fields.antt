-- ===== src/Scripts/Fields.antt =====
-- The fields of a passport and the two lines that scripts/generate_passport_image.py makes of them.
use hawiya_ai.Prelude.{
  ℕ, zero, suc, ◌+◌, ◌-◌, ◌%◌, ◌≤◌, ◌<◌, ◌≡◌, refl, true, ◌&&◌, [], ◌∷◌, ◌++◌, arith, ◌==◌, ok, all,
  all-append, length, replicate, length-append, length-replicate, length-map,
}
use hawiya_ai.Text.{Text, char_at, replace, replace_char, digit_char, is_ascii_digit}
use hawiya_ai.Text.Strip.{NoneOf}
use hawiya_ai.Text.Unicode.{Unicode}
use hawiya_ai.Extractors.Types.{ChecksumReport}
use hawiya_ai.Extractors.Validators.{filler}
use hawiya_ai.Extractors.CheckDigit.{is_mrz_char, checksum}
use hawiya_ai.Extractors.Readable.{is_checked, agrees, digit}
use hawiya_ai.Scripts.PassportImage.{Passport, pad, name_field, name_length}
use hawiya_ai.Scripts.Td3Layout
use hawiya_ai.Scripts.Names.{IsName, to_upper_words}

-- Fields that fit a TD3 passport.
pub record IsPassport (p : Passport) : Type 0 where
  pub issuing : length p.issuing ≡ 3
  pub nationality : length p.nationality ≡ 3
  pub surname : IsName p.surname
  pub given : IsName p.given
  pub names_fit : length p.surname + 2 + length p.given ≤ name_length
  pub number_fits : length p.passport_number ≤ 9
  pub number_chars : all is_mrz_char p.passport_number ≡ true
  pub number_no_filler : NoneOf (λ c. c == filler) p.passport_number
  pub dob_length : length p.dob ≡ 6
  pub dob_chars : all is_mrz_char p.dob ≡ true
  pub sex : length p.sex ≡ 1
  pub expiry_length : length p.expiry ≡ 6
  pub expiry_chars : all is_mrz_char p.expiry ≡ true
  pub personal_fits : length p.personal ≤ 14
  pub personal_chars : all is_mrz_char p.personal ≡ true
  pub personal_no_filler : NoneOf (λ c. c == filler) p.personal

abbrev pub all_true : ChecksumReport
all_true = record {
  doc_number = true;
  dob = true;
  expiry = true;
  personal = true;
  composite = true;
}

abbrev pub padded : Text → ℕ → Text
padded s n = s ++ replicate (n - length s) filler

pub pad-eq : (s : Text) (n : ℕ) → length s ≤ n → pad s n ≡ ok (padded s n)
unfolding pad
pad-eq s n h = ground arith

pub length-padded : (s : Text) (n : ℕ) → length s ≤ n → length (padded s n) ≡ n
length-padded s n h = omega (
  arith,
  length-append s (replicate (n - length s) filler),
  length-replicate (n - length s) filler,
)

all-replicate : (n : ℕ) → all is_mrz_char (replicate n filler) ≡ true
all-replicate zero = refl
all-replicate (suc n) = all-replicate n

pub padded-chars :
    (s : Text) (n : ℕ) → all is_mrz_char s ≡ true → all is_mrz_char (padded s n) ≡ true
padded-chars s n h =
    rw (all-append is_mrz_char s (replicate (n - length s) filler), h)
      (all-replicate (n - length s))

-- A computed digit, printed and read again.
printed_is_digit : (k : ℕ) → k < 10 → is_ascii_digit (digit_char k) ≡ true
printed_is_digit k h = ground arith

digit-printed : (k : ℕ) → k < 10 → digit (digit_char k) ≡ k
digit-printed k h = ground arith

abbrev pub digit_of : Text → ℕ
digit_of field = digit_char (checksum 0 field % 10)

pub agrees-digit_of : (field : Text) → agrees field (digit_of field) ≡ true
agrees-digit_of field = rw (digit-printed (checksum 0 field % 10) (omega arith)) (ground arith)

-- The composite digit, as the parser compares it.
pub composite_agrees :
    (field : Text)
    → (is_ascii_digit (digit_of field) && (checksum 0 field % 10 == digit_of field - 48)) ≡ true
composite_agrees field = ground arith

pub checked-digit_of :
    (field : Text) → all is_mrz_char field ≡ true → is_checked field (digit_of field) ≡ true
checked-digit_of field h = rw h (ground arith)

abbrev pub doc_field : Passport → Text
doc_field p = padded p.passport_number 9

abbrev pub personal_field : Passport → Text
personal_field p = padded p.personal 14

abbrev pub composite_input : Passport → Text
composite_input p =
    Td3Layout.composite_of (doc_field p) p.dob p.expiry (personal_field p) (digit_of (doc_field p))
      (digit_of p.dob) (digit_of p.expiry) (digit_of (personal_field p))

-- The two lines of a passport.
abbrev pub names : Passport → Text
names p = replace b' ' filler p.surname ++ (filler ∷ filler ∷ replace b' ' filler p.given)

unfoldable pub line1_of : Passport → Text
line1_of p = b'P' ∷ filler ∷ (p.issuing ++ padded (names p) name_length)

unfoldable pub line2_of : Passport → Text
line2_of p =
    Td3Layout.line2_of (doc_field p) p.nationality p.dob p.expiry (personal_field p)
      (digit_of (doc_field p)) (digit_of p.dob) (char_at 0 p.sex) (digit_of p.expiry)
      (digit_of (personal_field p)) (digit_of (composite_input p))

length-replace : (a b : ℕ) (s : Text) → length (replace a b s) ≡ length s
unfolding replace
length-replace a b s = length-map (replace_char a b) s

pub length-names : (p : Passport) → length (names p) ≡ length p.surname + 2 + length p.given
length-names p = omega (
  arith,
  length-append (replace b' ' filler p.surname) (filler ∷ filler ∷ replace b' ' filler p.given),
  length-replace b' ' filler p.surname,
  length-replace b' ' filler p.given,
)

pub single : (s : Text) → length s ≡ 1 → s ≡ char_at 0 s ∷ []
single [] h = absurd (omega arith)
single (c ∷ []) h = refl
single (c ∷ d ∷ s) h = absurd (omega arith)

digit_is_mrz : (k : ℕ) → k < 10 → (is_mrz_char (digit_char k) && true) ≡ true
digit_is_mrz k h = ground arith

-- A field with its digit, before more of the alphabet.
pub block :
    (field rest : Text)
    → all is_mrz_char field ≡ true
    → all is_mrz_char rest ≡ true
    → all is_mrz_char (field ++ digit_of field ∷ rest) ≡ true
block field rest h r =
    rw (all-append is_mrz_char field (digit_of field ∷ rest), h, r)
      (digit_is_mrz (checksum 0 field % 10) (omega arith))

pub name_field-eq :
    (u : Unicode) (p : Passport)
    → IsPassport p
    → name_field u p.surname p.given ≡ ok (padded (names p) name_length)
unfolding name_field
name_field-eq u p v =
    rw (to_upper_words u p.surname v.surname.0, to_upper_words u p.given v.given.0)
      (pad-eq (names p) name_length (omega (arith, length-names p, v.names_fit)))
