-- ===== src/Extractors/Readable.antt =====
-- When `parse_td3` returns: exactly on two lines of 44 characters whose checked fields keep to the
-- alphabet. On all other input it raises.
use hawiya_ai.Prelude.{
  ℕ, ◌-◌, ◌%◌, ◌<◌, ◌≡◌, refl, Bool, true, false, ◌&&◌, ◌||◌, [], ◌∷◌, ◌++◌, arith, ◌==◌,
  if◌then◌else◌, ok, err, ◌>>=◌, all, all-append, length, slice, take, drop, and-true,
}
use hawiya_ai.Text.{Text, is_ascii_digit, char_at, slice_one}
use hawiya_ai.Extractors.Types.{Attempt, value_error, ChecksumReport}
use hawiya_ai.Extractors.Validators.{filler, compute_check_digit, parse_check_digit, verify}
use hawiya_ai.Extractors.CheckDigit.{is_mrz_char, checksum, compute_check_digit-eq}
use hawiya_ai.Extractors.Mrz.{
  checksum_report, checksums, composite_field, equals_digit, parse_check_for_composite,
}

-- What may stand at a check digit.
abbrev pub is_check_char : ℕ → Bool
is_check_char c = (c == filler) || is_ascii_digit c

-- A checked field with its check digit.
abbrev pub is_checked : Text → ℕ → Bool
is_checked field c = all is_mrz_char field && is_check_char c

abbrev doc_number_checked : Text → Bool
doc_number_checked full = is_checked (slice 44 53 full) (char_at 53 full)

abbrev dob_checked : Text → Bool
dob_checked full = is_checked (slice 57 63 full) (char_at 63 full)

abbrev expiry_checked : Text → Bool
expiry_checked full = is_checked (slice 65 71 full) (char_at 71 full)

abbrev personal_checked : Text → Bool
personal_checked full = is_checked (slice 72 86 full) (char_at 86 full)

-- The four checked fields of the 88 characters.
unfoldable pub is_readable : Text → Bool
is_readable full =
    doc_number_checked full && (dob_checked full && (expiry_checked full && personal_checked full))

-- The digit that a check character stands for, and whether a field agrees with its check digit.
abbrev pub digit : ℕ → ℕ
digit c = if c == filler then 0 else c - 48

abbrev pub agrees : Text → ℕ → Bool
agrees field c = checksum 0 field % 10 == digit c

-- The report on 88 readable characters.
unfoldable pub report_of : Text → ChecksumReport
report_of full = record {
  doc_number = agrees (slice 44 53 full) (char_at 53 full);
  dob = agrees (slice 57 63 full) (char_at 63 full);
  expiry = agrees (slice 65 71 full) (char_at 71 full);
  personal = agrees (slice 72 86 full) (char_at 86 full);
  composite =
      is_ascii_digit (char_at 87 full)
      && (checksum 0 (composite_field full) % 10 == char_at 87 full - 48);
}

pub verify-eq :
    (field : Text) (c : ℕ)
    → verify field c ≡ (if is_checked field c then ok (agrees field c) else err value_error)
unfolding verify parse_check_digit
verify-eq field c = rw (compute_check_digit-eq field) (ground arith)

-- A checked field followed by its check digit keeps to the alphabet.
checked_block :
    (i : ℕ) (full field rest : Text)
    → i < length full
    → is_checked field (char_at i full) ≡ true
    → all is_mrz_char rest ≡ true
    → all is_mrz_char (field ++ (take 1 (drop i full) ++ rest)) ≡ true
checked_block i full field rest h e r =
    rw (slice_one i full h) (ground (arith, all-append is_mrz_char field (char_at i full ∷ rest)))

last_block :
    (i : ℕ) (full field : Text)
    → i < length full
    → is_checked field (char_at i full) ≡ true
    → all is_mrz_char (field ++ take 1 (drop i full)) ≡ true
last_block i full field h e =
    rw (slice_one i full h) (ground (arith, all-append is_mrz_char field (char_at i full ∷ [])))

all-composite_field :
    (full : Text)
    → length full ≡ 88
    → is_readable full ≡ true
    → all is_mrz_char (composite_field full) ≡ true
unfolding is_readable composite_field
all-composite_field full h e =
    let (a, e1) = and-true (doc_number_checked full) _ e in
    let (b, e2) = and-true (dob_checked full) _ e1 in
    let (c, d) = and-true (expiry_checked full) (personal_checked full) e2 in
    let r4 = slice 72 86 full ++ take 1 (drop 86 full) in
    let r3 = slice 65 71 full ++ (take 1 (drop 71 full) ++ r4) in
    let r2 = slice 57 63 full ++ (take 1 (drop 63 full) ++ r3) in
    checked_block 53 full (slice 44 53 full) r2 (omega arith) a (
      checked_block 63 full (slice 57 63 full) r3 (omega arith) b (
        checked_block 71 full (slice 65 71 full) r4 (omega arith) c
          (last_block 86 full (slice 72 86 full) (omega arith) d)))

-- Four tests and a computation that succeeds where all four do.
five_steps :
    {A : Type 0} (p q r s : Bool) (a b c d : Bool) (n : Attempt ℕ) (m : ℕ)
    (k : Bool → Bool → Bool → Bool → ℕ → A)
    → ((p && (q && (r && s))) ≡ true → n ≡ ok m)
    → ((if p then ok a else err value_error) >>= λ a. (if q then ok b else err value_error) >>= λ b.
        (if r then ok c else err value_error) >>= λ c.
        (if s then ok d else err value_error) >>= λ d. n >>= λ m. ok (k a b c d m))
      ≡ (if p && (q && (r && s)) then ok (k a b c d m) else err value_error)
five_steps true true true true a b c d n m k h = rw (h refl)
five_steps true true true false a b c d n m k h = refl
five_steps true true false s a b c d n m k h = refl
five_steps true false r s a b c d n m k h = refl
five_steps false q r s a b c d n m k h = refl

composite_digit :
    (n c : ℕ) → equals_digit n (parse_check_for_composite c) ≡ (is_ascii_digit c && (n == c - 48))
unfolding parse_check_for_composite
composite_digit n c = ground arith

-- The report on readable characters, and an error on others.
pub checksums-eq :
    (full : Text)
    → length full ≡ 88
    → checksums full ≡ (if is_readable full then ok (report_of full) else err value_error)
unfolding checksums is_readable report_of
checksums-eq full h =
    rw
      (
        verify-eq (slice 44 53 full) (char_at 53 full),
        verify-eq (slice 57 63 full) (char_at 63 full),
        verify-eq (slice 65 71 full) (char_at 71 full),
        verify-eq (slice 72 86 full) (char_at 86 full),
        ← composite_digit (checksum 0 (composite_field full) % 10) (char_at 87 full),
      )
      (five_steps (doc_number_checked full) (dob_checked full) (expiry_checked full)
        (personal_checked full) _ _ _ _ (compute_check_digit (composite_field full))
        (checksum 0 (composite_field full) % 10) (checksum_report (char_at 87 full))
        (λ e. rw (compute_check_digit-eq (composite_field full), all-composite_field full h e)))

pub readable_dob :
    (full : Text) → is_readable full ≡ true → all is_mrz_char (slice 57 63 full) ≡ true
unfolding is_readable
readable_dob full e =
    let e1 = (and-true (doc_number_checked full) _ e).1 in
    let e2 = (and-true (dob_checked full) _ e1).0 in
    (and-true (all is_mrz_char (slice 57 63 full)) _ e2).0

pub readable_expiry :
    (full : Text) → is_readable full ≡ true → all is_mrz_char (slice 65 71 full) ≡ true
unfolding is_readable
readable_expiry full e =
    let e1 = (and-true (doc_number_checked full) _ e).1 in
    let e2 = (and-true (dob_checked full) _ e1).1 in
    let e3 = (and-true (expiry_checked full) _ e2).0 in
    (and-true (all is_mrz_char (slice 65 71 full)) _ e3).0
