-- ===== src/Tests/Documents.antt =====
-- Witnesses for the parser, the builder, the check digits and the dates.
use hawiya_ai.Prelude.{◌%◌, ◌≡◌, ◌↔◌, refl, some, ◌∷◌, ◌++◌, ok, err, arith, if◌then◌else◌}
use hawiya_ai.Text.{text}
use hawiya_ai.Date.{Date, isoformat, fromisoformat, fromisoformat-isoformat, date}
use hawiya_ai.Extractors.Types.{value_error}
use hawiya_ai.Extractors.Validators.{compute_check_digit}
use hawiya_ai.Extractors.CheckDigit.{
  value, single_substitution, transposition, checksum, compute_check_digit-eq,
}
use hawiya_ai.Extractors.Mrz.{parse_td3}
use hawiya_ai.Extractors.Readable.{is_readable}
use hawiya_ai.Extractors.ParseResult.{parsed, parse_td3-eq}
use hawiya_ai.Extractors.Types.{unsupported_document}
use hawiya_ai.Extractors.Classifier.{Bytes, classify, detect_format, mime_of, is_heic, one_of}
use hawiya_ai.Extractors.Classifier.Formats.{IsAccepted, IsRefused, classify-detect_format}
use hawiya_ai.Prelude.{◌⊎◌}
use hawiya_ai.Text.{starts_with, text_eq}
use hawiya_ai.Scripts.PassportImage.{build_td3_mrz}
use hawiya_ai.Scripts.RoundTrip.{parse-build, expected}
use hawiya_ai.Scripts.Fields.{IsPassport, line1_of, line2_of}
use hawiya_ai.Tests.Sample.{ascii, anna, line1, line2}

anna-IsPassport : IsPassport anna
anna-IsPassport = record {
  issuing = refl;
  nationality = refl;
  surname = (refl, refl);
  given = (refl, refl);
  names_fit = omega arith;
  number_fits = omega arith;
  number_chars = refl;
  number_no_filler = (refl, (refl, (refl, (refl, (refl, (refl, (refl, (refl, (refl, tt)))))))));
  dob_length = refl;
  dob_chars = refl;
  sex = refl;
  expiry_length = refl;
  expiry_chars = refl;
  personal_fits = omega arith;
  personal_chars = refl;
  personal_no_filler = (refl, (refl, (refl, (refl, (refl, (refl, (refl, (refl, (refl, tt)))))))));
}

parse-build_example :
    (build_td3_mrz ascii anna ≡ ok (line1_of anna, line2_of anna))
    × (parse_td3 ascii 2026 (line1_of anna) (line2_of anna) ≡ ok (expected 2026 anna))
parse-build_example = parse-build ascii 2026 anna anna-IsPassport

parse_td3-eq_example :
    parse_td3 ascii 2026 line1 line2
    ≡ (if is_readable (line1 ++ line2) then ok (parsed 2026 line1 line2) else err value_error)
parse_td3-eq_example = parse_td3-eq ascii 2026 line1 line2 refl refl

compute_check_digit-eq_example :
    compute_check_digit (text "L898902C3") ≡ ok (checksum 0 (text "L898902C3") % 10)
compute_check_digit-eq_example = compute_check_digit-eq (text "L898902C3")

single_substitution_example :
    (compute_check_digit (text "7408" ++ b'1' ∷ text "2")
      ≡ compute_check_digit (text "7408" ++ b'3' ∷ text "2"))
    ↔ (value b'1' % 10 ≡ value b'3' % 10)
single_substitution_example = single_substitution (text "7408") (text "2") b'1' b'3' refl refl

transposition_example :
    (compute_check_digit (text "74" ++ b'0' ∷ b'8' ∷ text "12")
      ≡ compute_check_digit (text "74" ++ b'8' ∷ b'0' ∷ text "12"))
    ↔ (value b'0' % 5 ≡ value b'8' % 5)
transposition_example = transposition (text "74") (text "12") b'0' b'8' refl

abbrev leap_day : Date
leap_day = record { year = 2024; month = 2; day = 29 }

fromisoformat-isoformat_example : fromisoformat (isoformat leap_day) ≡ some leap_day
unfolding date hawiya_ai.Date.days_in_month
fromisoformat-isoformat_example = fromisoformat-isoformat leap_day refl

-- A backend that reads the same short line twice.
abbrev heic_upload : Bytes
heic_upload = 0 ∷ 0 ∷ 0 ∷ 24 ∷ text "ftypheic...."

classify-detect_format_example : IsAccepted heic_upload ⊎ IsRefused heic_upload
classify-detect_format_example = classify-detect_format heic_upload

heic_refused :
    (classify heic_upload ≡ err unsupported_document)
    × (detect_format heic_upload ≡ some (text "image/heic"))
unfolding classify detect_format mime_of is_heic one_of starts_with text_eq
heic_refused = (refl, refl)
