-- ===== src/Scripts/RoundTrip.antt =====
-- The parser of src/hawiya/extractors/mrz.py reads back what scripts/generate_passport_image.py builds.
use hawiya_ai.Prelude.{
  ℕ, ◌-◌, ◌≡◌, refl, ◌∙◌, ap, true, [], ◌++◌, arith, ok, all, length, length-append, slice,
  take-append, drop_after, take_all,
}
use hawiya_ai.Text.{text, char_at}
use hawiya_ai.Text.Strip.{rstrip, rstrip-append-replicate}
use hawiya_ai.Text.Unicode.{Unicode}
use hawiya_ai.Extractors.Types.{ParsedMrz}
use hawiya_ai.Extractors.Validators.{filler}
use hawiya_ai.Extractors.CheckDigit.{is_mrz_char, compute_check_digit_of_valid}
use hawiya_ai.Extractors.Mrz.{parse_td3, parse_name, parse_sex, dob_century, expiry_century}
use hawiya_ai.Extractors.MrzDates.{dated}
use hawiya_ai.Extractors.Readable.{is_readable, report_of}
use hawiya_ai.Extractors.ParseResult.{parsed, parse_td3-eq}
use hawiya_ai.Scripts.PassportImage.{Passport, name_length, build_td3_mrz}
use hawiya_ai.Scripts.Td3Layout
use hawiya_ai.Scripts.Names.{parse_name_field}
use hawiya_ai.Scripts.Fields.{
  IsPassport, all_true, padded, pad-eq, length-padded, padded-chars, digit_of, agrees-digit_of,
  composite_agrees, checked-digit_of, doc_field, personal_field, composite_input, names, line1_of,
  line2_of, length-names, single, block, name_field-eq,
}

module _ (p : Passport) (v : IsPassport p) where
  length-line1_of : length (line1_of p) ≡ 44
  unfolding line1_of
  length-line1_of = omega (
    arith,
    length-append p.issuing (padded (names p) name_length),
    length-padded (names p) name_length (omega (arith, length-names p, v.names_fit)),
    v.issuing,
  )

  composite-chars : all is_mrz_char (composite_input p) ≡ true
  composite-chars = block (doc_field p) _ (padded-chars p.passport_number 9 v.number_chars) (
      block p.dob _ v.dob_chars (
        block p.expiry _ v.expiry_chars
          (block (personal_field p) [] (padded-chars p.personal 14 v.personal_chars) refl)))

  abbrev layout : Td3Layout.Layout
  layout = record {
    line1 = line1_of p;
    doc = doc_field p;
    nat = p.nationality;
    dob = p.dob;
    exp = p.expiry;
    per = personal_field p;
    dc = digit_of (doc_field p);
    bc = digit_of p.dob;
    sex = char_at 0 p.sex;
    ec = digit_of p.expiry;
    pc = digit_of (personal_field p);
    cc = digit_of (composite_input p);
    h1 = length-line1_of;
    hd = length-padded p.passport_number 9 v.number_fits;
    hn = v.nationality;
    hb = v.dob_length;
    he = v.expiry_length;
    hp = length-padded p.personal 14 v.personal_fits;
  }

  length-line2_of : length (line2_of p) ≡ 44
  unfolding line2_of
  length-line2_of = Td3Layout.length-line2 layout

  -- The builder succeeds, with these lines.
  build-eq : (u : Unicode) → build_td3_mrz u p ≡ ok (line1_of p, line2_of p)
  unfolding build_td3_mrz line1_of line2_of
  build-eq u =
      let number = padded-chars p.passport_number 9 v.number_chars in
      let personal = padded-chars p.personal 14 v.personal_chars in
      rw
        (
          name_field-eq u p v,
          length-line1_of,
          pad-eq p.passport_number 9 v.number_fits,
          compute_check_digit_of_valid (doc_field p) number,
          compute_check_digit_of_valid p.dob v.dob_chars,
          compute_check_digit_of_valid p.expiry v.expiry_chars,
          pad-eq p.personal 14 v.personal_fits,
          compute_check_digit_of_valid (personal_field p) personal,
          compute_check_digit_of_valid (composite_input p) composite-chars,
          single p.sex v.sex,
        )
        (rw length-line2_of)

  line2-eq : line2_of p ≡ Td3Layout.line2 layout
  unfolding line2_of
  line2-eq = refl

  -- All four fields are readable, and all five digits agree.
  readable : is_readable (line1_of p ++ line2_of p) ≡ true
  unfolding is_readable line2_of
  readable =
      let (a, b, c, d) = Td3Layout.fields_of_full layout in
      let (e, f, g, h, _) = Td3Layout.check_chars layout in
      rw (
        a,
        b,
        c,
        d,
        e,
        f,
        g,
        h,
        checked-digit_of (doc_field p) (padded-chars p.passport_number 9 v.number_chars),
        checked-digit_of p.dob v.dob_chars,
        checked-digit_of p.expiry v.expiry_chars,
        checked-digit_of (personal_field p) (padded-chars p.personal 14 v.personal_chars),
      )

  all_agree : report_of (line1_of p ++ line2_of p) ≡ all_true
  unfolding report_of line2_of
  all_agree =
      let (a, b, c, d) = Td3Layout.fields_of_full layout in
      let (e, f, g, h, k) = Td3Layout.check_chars layout in
      rw (
        a,
        b,
        c,
        d,
        e,
        f,
        g,
        h,
        k,
        Td3Layout.composite_of-full layout,
        agrees-digit_of (doc_field p),
        agrees-digit_of p.dob,
        agrees-digit_of p.expiry,
        agrees-digit_of (personal_field p),
        composite_agrees (composite_input p),
      )

  -- Line 1 holds the issuing state and both names.
  names_read : parse_name (slice 5 44 (line1_of p)) ≡ (p.surname, p.given)
  unfolding line1_of
  names_read =
      let fits = length-padded (names p) name_length (omega (arith, length-names p, v.names_fit)) in
      rw
        (
          drop_after p.issuing (padded (names p) name_length) 3 0 3 v.issuing refl,
          take_all (padded (names p) name_length) name_length fits,
        )
        (parse_name_field p.surname p.given _ v.surname v.given)

  issuing_read : slice 2 5 (line1_of p) ≡ p.issuing
  unfolding line1_of
  issuing_read = take-append p.issuing (padded (names p) name_length) 3 v.issuing

  type_read : rstrip filler (slice 0 2 (line1_of p)) ≡ text "P"
  unfolding line1_of rstrip
  type_read = refl

-- What the parser is to read from a passport.
abbrev pub expected : ℕ → Passport → ParsedMrz
expected this_year p = record {
  document_type = text "P";
  issuing_country = p.issuing;
  surname = p.surname;
  given_names = p.given;
  document_number = p.passport_number;
  nationality = p.nationality;
  date_of_birth = dated (dob_century this_year) p.dob;
  sex = parse_sex (char_at 0 p.sex);
  date_of_expiry = dated expiry_century p.expiry;
  personal_number = p.personal;
  checksums = all_true;
  raw_line_1 = line1_of p;
  raw_line_2 = line2_of p;
}

parsed-expected :
    (this_year : ℕ) (p : Passport)
    → IsPassport p
    → parsed this_year (line1_of p) (line2_of p) ≡ expected this_year p
unfolding parsed
parsed-expected this_year p v = rw (
  line2-eq p v,
  names_read p v,
  issuing_read p v,
  type_read p v,
  Td3Layout.at_doc (layout p v),
  Td3Layout.at_nat (layout p v),
  Td3Layout.at_dob (layout p v),
  Td3Layout.at_sex (layout p v),
  Td3Layout.at_exp (layout p v),
  Td3Layout.at_per (layout p v),
  rstrip-append-replicate filler (9 - length p.passport_number) p.passport_number
      v.number_no_filler,
  rstrip-append-replicate filler (14 - length p.personal) p.personal v.personal_no_filler,
  ← line2-eq p v,
  all_agree p v,
)

-- For a passport with fields of the right lengths and alphabet, and names in capital letters that
-- fit the name field, the builder makes two lines, and the parser reads from them every field of
-- the passport, with all five checksums in agreement.
pub parse-build :
    (u : Unicode) (this_year : ℕ) (p : Passport)
    → IsPassport p
    → (build_td3_mrz u p ≡ ok (line1_of p, line2_of p))
      × (parse_td3 u this_year (line1_of p) (line2_of p) ≡ ok (expected this_year p))
parse-build u this_year p v = (
  build-eq p v u,
  parse_td3-eq u this_year (line1_of p) (line2_of p) (length-line1_of p v) (length-line2_of p v)
      ∙ rw (readable p v) (ap ok (parsed-expected this_year p v)),
)
