-- ===== src/Scripts/PassportImage.antt =====
-- The MRZ builder of scripts/generate_passport_image.py. Drawing the image is not modelled.
use hawiya_ai.Prelude.{
  ℕ, ◌-◌, not, [], ◌∷◌, ◌++◌, ltb, ◌==◌, length, replicate, ok, ◌>>=◌, ◌>>◌, raise_if,
}
use hawiya_ai.Text.{Text, text, replace, digit_char}
use hawiya_ai.Text.Unicode.{Unicode, to_upper}
use hawiya_ai.Extractors.Types.{Attempt, value_error, assertion_error}
use hawiya_ai.Extractors.Validators.{filler, compute_check_digit}

abbrev pub name_length : ℕ
name_length = 39

-- `_pad`.
unfoldable pub pad : Text → ℕ → Attempt Text
pad value n = do
  raise_if (ltb n (length value)) value_error
  ok (value ++ replicate (n - length value) filler)

-- `_name_field`.
unfoldable pub name_field : Unicode → Text → Text → Attempt Text
name_field u surname given =
    pad
      (replace b' ' filler (to_upper u surname)
        ++ (text "<<" ++ replace b' ' filler (to_upper u given)))
      name_length

pub record Passport : Type 0 where
  pub issuing : Text
  pub nationality : Text
  pub surname : Text
  pub given : Text
  pub passport_number : Text
  pub dob : Text
  pub sex : Text
  pub expiry : Text
  pub personal : Text

unfoldable pub build_td3_mrz : Unicode → Passport → Attempt (Text × Text)
build_td3_mrz u p = do
  name ← name_field u p.surname p.given
  let line1 = text "P<" ++ (p.issuing ++ name)
  raise_if (not (length line1 == 44)) assertion_error
  doc_field ← pad p.passport_number 9
  doc_check ← compute_check_digit doc_field
  dob_check ← compute_check_digit p.dob
  expiry_check ← compute_check_digit p.expiry
  personal_field ← pad p.personal 14
  personal_check ← compute_check_digit personal_field
  let composite_input =
      doc_field
      ++ (digit_char doc_check
          ∷ (p.dob
              ++ (digit_char dob_check
                  ∷ (p.expiry
                      ++ (digit_char expiry_check
                          ∷ (personal_field ++ digit_char personal_check ∷ []))))))
  composite_check ← compute_check_digit composite_input
  let line2 =
      doc_field
      ++ (digit_char doc_check
          ∷ (p.nationality
              ++ (p.dob
                  ++ (digit_char dob_check
                      ∷ (p.sex
                          ++ (p.expiry
                              ++ (digit_char expiry_check
                                  ∷ (personal_field
                                      ++ digit_char personal_check
                                        ∷ digit_char composite_check
                                        ∷ []))))))))
  raise_if (not (length line2 == 44)) assertion_error
  ok (line1, line2)
