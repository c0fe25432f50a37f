-- ===== src/Extractors/ParseResult.antt =====
-- The result of `parse_td3` of src/hawiya/extractors/mrz.py on every input.
use hawiya_ai.Prelude.{
  ℕ, ◌+◌, ◌≡◌, ◌⊎◌, inl, inr, refl, Bool, true, false, Option, [], ◌++◌, arith, if◌then◌else◌, ok,
  err, is_ok, ◌>>=◌, length, slice, take, drop, length-append, length-take, length-drop, drop_after,
  ◌≤◌, Bool-cases, Option-cases, ◌*◌, ◌∷◌, all,
}
use hawiya_ai.Text.{Text, char_at}
use hawiya_ai.Text.Strip.{rstrip}
use hawiya_ai.Text.Unicode.{Unicode, all_digits}
use hawiya_ai.Date.{Date, date}
use hawiya_ai.Extractors.Types.{Attempt, value_error, ParsedMrz, ChecksumReport}
use hawiya_ai.Extractors.Validators.{filler}
use hawiya_ai.Extractors.CheckDigit.{is_mrz_char}
use hawiya_ai.Extractors.Mrz.{
  int, int_from, parse_date, parse_dob, parse_expiry, dob_century, expiry_century, checksums,
  parse_td3, parse_name, parse_sex,
}
use hawiya_ai.Extractors.MrzDates.{dated, parse_date_of_mrz}
use hawiya_ai.Extractors.Readable.{
  is_readable, report_of, checksums-eq, readable_dob, readable_expiry,
}

-- The parsed fields of two lines, given the dates and the report.
abbrev fields : Text → Text → Option Date → Option Date → ChecksumReport → ParsedMrz
fields line1 line2 date_of_birth date_of_expiry report = record {
  document_type = rstrip filler (slice 0 2 line1);
  issuing_country = slice 2 5 line1;
  surname = (parse_name (slice 5 44 line1)).0;
  given_names = (parse_name (slice 5 44 line1)).1;
  document_number = rstrip filler (slice 0 9 line2);
  nationality = slice 10 13 line2;
  date_of_birth = date_of_birth;
  sex = parse_sex (char_at 20 line2);
  date_of_expiry = date_of_expiry;
  personal_number = rstrip filler (slice 28 42 line2);
  checksums = report;
  raw_line_1 = line1;
  raw_line_2 = line2;
}

-- What is read from two readable lines.
unfoldable pub parsed : ℕ → Text → Text → ParsedMrz
parsed this_year line1 line2 =
    fields line1 line2 (dated (dob_century this_year) (slice 13 19 line2))
      (dated expiry_century (slice 21 27 line2)) (report_of (line1 ++ line2))

-- A call that can raise nothing but a plain `ValueError`.
abbrev RaisesValueError : {A : Type 0} → Attempt A → Type 0
RaisesValueError r = (is_ok r ≡ true) ⊎ (r ≡ err value_error)

int_from-RaisesValueError : (u : Unicode) (n : ℕ) (s : Text) → RaisesValueError (int_from u n s)
unfolding int_from
int_from-RaisesValueError u n [] = inl refl
int_from-RaisesValueError u n (c ∷ s) = elim (Option-cases (u.decimal c)) [
  | inl e ↦ rw e (inr refl)
  | inr (d, e) ↦ rw e (int_from-RaisesValueError u (n * 10 + d) s)
]

int-RaisesValueError : (u : Unicode) (s : Text) → RaisesValueError (int u s)
unfolding int
int-RaisesValueError u [] = inr refl
int-RaisesValueError u (c ∷ s) = int_from-RaisesValueError u 0 (c ∷ s)

three_steps :
    {A : Type 0} (a b c : Attempt ℕ) (k : ℕ → ℕ → ℕ → A)
    → RaisesValueError a
    → RaisesValueError b
    → RaisesValueError c
    → RaisesValueError (a >>= λ x. b >>= λ y. c >>= λ z. ok (k x y z))
three_steps a b c k h i j = ground arith

parse_date-RaisesValueError :
    (u : Unicode) (century : ℕ → ℕ) (raw : Text) → RaisesValueError (parse_date u century raw)
unfolding parse_date
parse_date-RaisesValueError u century raw = elim (Bool-cases (all_digits u raw)) [
  | inl e ↦ rw e (
      three_steps (int u (slice 0 2 raw)) (int u (slice 2 4 raw)) (int u (slice 4 6 raw))
        (λ yy. date (century yy + yy)) (int-RaisesValueError u (slice 0 2 raw))
        (int-RaisesValueError u (slice 2 4 raw)) (int-RaisesValueError u (slice 4 6 raw)))
  | inr e ↦ rw e (inl refl)
]

dob-RaisesValueError :
    (u : Unicode) (this_year : ℕ) (raw : Text) → RaisesValueError (parse_dob u this_year raw)
unfolding parse_dob
dob-RaisesValueError u this_year raw = parse_date-RaisesValueError u (dob_century this_year) raw

expiry-RaisesValueError : (u : Unicode) (raw : Text) → RaisesValueError (parse_expiry u raw)
unfolding parse_expiry
expiry-RaisesValueError u raw = parse_date-RaisesValueError u expiry_century raw

dob_of_mrz :
    (u : Unicode) (this_year : ℕ) (raw : Text)
    → length raw ≡ 6
    → all is_mrz_char raw ≡ true
    → parse_dob u this_year raw ≡ ok (dated (dob_century this_year) raw)
unfolding parse_dob
dob_of_mrz u this_year raw h m = parse_date_of_mrz u (dob_century this_year) raw h m

expiry_of_mrz :
    (u : Unicode) (raw : Text)
    → length raw ≡ 6
    → all is_mrz_char raw ≡ true
    → parse_expiry u raw ≡ ok (dated expiry_century raw)
unfolding parse_expiry
expiry_of_mrz u raw h m = parse_date_of_mrz u expiry_century raw h m

six : (i : ℕ) (full : Text) → i + 6 ≤ length full → length (take 6 (drop i full)) ≡ 6
six i full h = omega (arith, length-take 6 (drop i full), length-drop i full)

-- Two dates, then the report, which decides.
dates_and_report :
    {A : Type 0} (d e : Attempt (Option Date)) (c : Attempt ChecksumReport) (x y : Option Date)
    (r : ChecksumReport) (b : Bool) (k : Option Date → Option Date → ChecksumReport → A)
    → RaisesValueError d
    → RaisesValueError e
    → c ≡ (if b then ok r else err value_error)
    → (b ≡ true → d ≡ ok x)
    → (b ≡ true → e ≡ ok y)
    → (d >>= λ x. e >>= λ y. c >>= λ r. ok (k x y r))
      ≡ (if b then ok (k x y r) else err value_error)
dates_and_report d e c x y r true k hd he hc hx hy = rw (hc, hx refl, hy refl)
dates_and_report d e c x y r false k hd he hc hx hy = rw hc (ground arith)

-- On two lines of 44 characters `parse_td3` returns exactly when the line is readable, and then the
-- Unicode tables do not matter; otherwise it raises a plain `ValueError`, not `MRZFormatError`.
pub parse_td3-eq :
    (u : Unicode) (this_year : ℕ) (line1 line2 : Text)
    → length line1 ≡ 44
    → length line2 ≡ 44
    → parse_td3 u this_year line1 line2 ≡ (
        if is_readable (line1 ++ line2) then ok (parsed this_year line1 line2) else err value_error)
unfolding parse_td3 parsed
parse_td3-eq u this_year line1 line2 h k =
    let full = line1 ++ line2 in
    let size : length full ≡ 88 = omega (arith, length-append line1 line2) in
    let at44 = drop_after line1 line2 44 0 44 h refl in
    let at57 = drop_after line1 line2 44 13 57 h refl in
    let at65 = drop_after line1 line2 44 21 65 h refl in
    let at72 = drop_after line1 line2 44 28 72 h refl in
    rw (h, k, at44, at72, ← at57, ← at65)
      (dates_and_report (parse_dob u this_year (slice 57 63 full))
        (parse_expiry u (slice 65 71 full)) (checksums full) _ _ (report_of full) (is_readable full)
        (fields line1 line2) (dob-RaisesValueError u this_year (slice 57 63 full))
        (expiry-RaisesValueError u (slice 65 71 full)) (checksums-eq full size)
        (λ e. dob_of_mrz u this_year _ (six 57 full (omega arith)) (readable_dob full e))
        (λ e. expiry_of_mrz u _ (six 65 full (omega arith)) (readable_expiry full e)))
