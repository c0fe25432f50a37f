-- ===== src/Tests/Redaction.antt =====
-- The examples of tests/unit/test_pii.py, and witnesses for the redactor.
use hawiya_ai.Prelude.{◌≡◌, refl, ◌||◌, ◌==◌, replicate}
use hawiya_ai.Text.{Text, text, text_eq}
use hawiya_ai.Tenancy.Http.{lower}
use hawiya_ai.Security.Regex.{sub, scan, one, exactly, up_to, many, boundary}
use hawiya_ai.Security.Pii.{
  Python, is_letter, is_digit, redacted, redact_string, is_sensitive_key, is_among, str_key, Value,
  mapping, str, other, end, item, redact_pii, list, cons, nil,
}
use hawiya_ai.Security.Pii.Runs.{IsFreeOfMrz, redact_string-IsFreeOfMrz}
use hawiya_ai.Security.Pii.Leaks.{masked, redact_pii-hides}

abbrev python : Python
python = record {
  is_word = λ c. is_letter c || (is_digit c || (c == b'_'));
  is_decimal = is_digit;
  lower = lower;
}

passport_number :
    redact_string python (text "document P1234567 from") ≡ text "document ***REDACTED*** from"
unfolding redact_string sub scan one exactly up_to many boundary
passport_number = refl

date_and_email :
    redact_string python (text "dob 1990-05-12, officer@example.gov.ae")
    ≡ text "dob ***REDACTED***, ***REDACTED***"
unfolding redact_string sub scan one exactly up_to many boundary
date_and_email = refl

-- A letter more before the digits, and it is no passport number.
three_letters : redact_string python (text "ABC1234567") ≡ text "ABC1234567"
unfolding redact_string sub scan one exactly up_to many boundary
three_letters = refl

abbrev payload : Text → Value
payload number = list (
    cons
      (mapping (
        item (str_key (text "Passport_Number")) (str number)
          (item (str_key (text "score")) (other 91) end)))
      nil)

payload_hidden : redact_pii python (payload (text "X9876543")) ≡ payload redacted
unfolding redact_pii is_sensitive_key is_among text_eq lower
payload_hidden = refl

redact_string-IsFreeOfMrz_example : IsFreeOfMrz (redact_string python (replicate 44 b'<'))
redact_string-IsFreeOfMrz_example = redact_string-IsFreeOfMrz python (replicate 44 b'<')

same_mask : masked python (payload (text "X9876543")) ≡ masked python (payload (text "none"))
unfolding masked is_sensitive_key is_among text_eq lower
same_mask = refl

redact_pii-hides_example :
    redact_pii python (payload (text "X9876543")) ≡ redact_pii python (payload (text "none"))
redact_pii-hides_example =
    redact_pii-hides python (payload (text "X9876543")) (payload (text "none")) same_mask
