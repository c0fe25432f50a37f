-- ===== src/Extractors/Mrz.antt =====
-- `parse_td3` of src/hawiya/extractors/mrz.py and its helpers. `this_year` is the year of `datetime.now`, and the
-- Unicode tables are a parameter. A raised `ValueError` is the result `err value_error`.
use hawiya_ai.Prelude.{
  ℕ, ◌+◌, ◌-◌, ◌*◌, ◌%◌, Bool, false, not, Option, none, some, [], ◌∷◌, ◌++◌, ltb, ◌==◌,
  if◌then◌else◌, length, slice, ok, err, ◌>>=◌, ◌>>◌, raise_if,
}
use hawiya_ai.Text.{Text, char_at, is_ascii_digit, replace}
use hawiya_ai.Text.Strip.{strip, rstrip}
use hawiya_ai.Text.Split.{split_double}
use hawiya_ai.Text.Unicode.{Unicode, all_digits}
use hawiya_ai.Date.{Date, date}
use hawiya_ai.Extractors.Types.{
  Attempt, mrz_format, value_error, Sex, male, female, unspecified, ChecksumReport, ParsedMrz,
}
use hawiya_ai.Extractors.Validators.{filler, compute_check_digit, verify}

abbrev pub td3_line_length : ℕ
td3_line_length = 44

abbrev pub dob_future_slack : ℕ
dob_future_slack = 1

abbrev pub expiry_century_cutoff : ℕ
expiry_century_cutoff = 50

-- `_parse_name`.
abbrev pub clean_name : Text → Text
clean_name part = strip (replace filler b' ' part)

abbrev pub given_part : Option Text → Text
given_part none = []
given_part (some part) = clean_name part

unfoldable pub parse_name : Text → Text × Text
parse_name field =
    let (head, tail) = split_double filler field in (clean_name head, given_part tail)

-- `_parse_sex`.
unfoldable pub parse_sex : ℕ → Option Sex
parse_sex ch =
    if ch == b'M'
    then some male
    else if ch == b'F'
    then some female
    else if ch == b'X'
    then some unspecified
    else if ch == filler
    then some unspecified
    else none

-- `int(s)` of a text of digits: a digit that is not decimal raises, and so does the empty text.
abbrev pub add_digit : ℕ → Option ℕ → Attempt ℕ
add_digit n none = err value_error
add_digit n (some d) = ok (n * 10 + d)

unfoldable pub int_from : Unicode → ℕ → Text → Attempt ℕ
int_from u n [] = ok n
int_from u n (c ∷ s) = do m ← add_digit n (u.decimal c); int_from u m s

unfoldable pub int : Unicode → Text → Attempt ℕ
unfolding int_from
int u [] = err value_error
int u (c ∷ s) = int_from u 0 (c ∷ s)

-- `_parse_dob` and `_parse_expiry` differ in the century that they take for a two-digit year.
unfoldable pub dob_century : ℕ → ℕ → ℕ
dob_century this_year yy = if ltb (this_year % 100 + dob_future_slack) yy then 1900 else 2000

unfoldable pub expiry_century : ℕ → ℕ
expiry_century yy = if ltb yy expiry_century_cutoff then 2000 else 1900

unfoldable pub parse_date : Unicode → (ℕ → ℕ) → Text → Attempt (Option Date)
unfolding int date all_digits
parse_date u century raw = if not (all_digits u raw) then ok none else do
  yy ← int u (slice 0 2 raw)
  mm ← int u (slice 2 4 raw)
  dd ← int u (slice 4 6 raw)
  ok (date (century yy + yy) mm dd)

unfoldable pub parse_dob : Unicode → ℕ → Text → Attempt (Option Date)
unfolding parse_date
parse_dob u this_year raw = parse_date u (dob_century this_year) raw

unfoldable pub parse_expiry : Unicode → Text → Attempt (Option Date)
unfolding parse_date
parse_expiry u raw = parse_date u expiry_century raw

-- `_parse_check_for_composite`; `none` stands for its -1, which no check digit equals.
unfoldable pub parse_check_for_composite : ℕ → Option ℕ
parse_check_for_composite ch = if is_ascii_digit ch then some (ch - 48) else none

abbrev pub equals_digit : ℕ → Option ℕ → Bool
equals_digit n none = false
equals_digit n (some d) = n == d

-- The text of the composite check digit: the four fields with their check digits.
unfoldable pub composite_field : Text → Text
composite_field full =
    slice 44 53 full
    ++ (slice 53 54 full
        ++ (slice 57 63 full
            ++ (slice 63 64 full
                ++ (slice 65 71 full
                    ++ (slice 71 72 full ++ (slice 72 86 full ++ slice 86 87 full))))))

abbrev pub checksum_report : ℕ → Bool → Bool → Bool → Bool → ℕ → ChecksumReport
checksum_report composite_check_char doc_number_ok dob_ok expiry_ok personal_ok composite = record {
  doc_number = doc_number_ok;
  dob = dob_ok;
  expiry = expiry_ok;
  personal = personal_ok;
  composite = equals_digit composite (parse_check_for_composite composite_check_char);
}

-- The five checksums of `parse_td3`.
unfoldable pub checksums : Text → Attempt ChecksumReport
unfolding verify composite_field parse_check_for_composite
checksums full = do
  doc_number_ok ← verify (slice 44 53 full) (char_at 53 full)
  dob_ok ← verify (slice 57 63 full) (char_at 63 full)
  expiry_ok ← verify (slice 65 71 full) (char_at 71 full)
  personal_ok ← verify (slice 72 86 full) (char_at 86 full)
  composite ← compute_check_digit (composite_field full)
  ok (checksum_report (char_at 87 full) doc_number_ok dob_ok expiry_ok personal_ok composite)

unfoldable pub parse_td3 : Unicode → ℕ → Text → Text → Attempt ParsedMrz
parse_td3 u this_year line1 line2 = do
  raise_if (not (length line1 == td3_line_length)) (mrz_format 1 (length line1))
  raise_if (not (length line2 == td3_line_length)) (mrz_format 2 (length line2))
  let full = line1 ++ line2
  let (surname, given_names) = parse_name (slice 5 44 line1)
  date_of_birth ← parse_dob u this_year (slice 57 63 full)
  date_of_expiry ← parse_expiry u (slice 65 71 full)
  report ← checksums full
  ok (record {
    document_type = rstrip filler (slice 0 2 line1);
    issuing_country = slice 2 5 line1;
    surname = surname;
    given_names = given_names;
    document_number = rstrip filler (slice 44 53 full);
    nationality = slice 10 13 line2;
    date_of_birth = date_of_birth;
    sex = parse_sex (char_at 20 line2);
    date_of_expiry = date_of_expiry;
    personal_number = rstrip filler (slice 72 86 full);
    checksums = report;
    raw_line_1 = line1;
    raw_line_2 = line2;
  })

-- What a run of the parser computes with.
unfoldable pub mrz_code : Unit {0}
unfolding parse_td3 dob_century expiry_century parse_name parse_sex parse_dob parse_expiry checksums
    rstrip split_double strip replace
mrz_code = tt
