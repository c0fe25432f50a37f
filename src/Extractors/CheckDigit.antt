-- ===== src/Extractors/CheckDigit.antt =====
-- What the check digit of src/hawiya/extractors/validators.py computes and which errors it catches.
use hawiya_ai.Prelude.{
  ℕ, zero, suc, ◌+◌, ◌-◌, ◌*◌, ◌%◌, ◌<◌, ◌≡◌, ◌↔◌, ◌⊎◌, inl, inr, refl, ◌∙◌, ap, Bool, true, ◌||◌,
  [], ◌∷◌, ◌++◌, arith, ◌==◌, if◌then◌else◌, get_or, ok, err, all, all-append, iff_trans, length,
  Bool-cases,
}
use native.Mathlib.Nat.{add-zero, zero-add}
use hawiya_ai.Text.{Text, is_ascii_digit}
use hawiya_ai.Extractors.Types.{value_error}
use hawiya_ai.Extractors.Validators.{
  weights, filler, is_upper, char_value, weighted_sum, compute_check_digit,
}

-- The alphabet of the machine-readable zone, and the value of a character of it.
abbrev pub is_mrz_char : ℕ → Bool
is_mrz_char c = (c == filler) || is_ascii_digit c || is_upper c

unfoldable pub value : ℕ → ℕ
value c = if c == filler then 0 else if is_ascii_digit c then c - 48 else c - 55

unfoldable pub weight : ℕ → ℕ
weight i = get_or weights (i % 3) 0

-- The weighted sum as a plain recursion.
unfoldable pub checksum : ℕ → Text → ℕ
checksum i [] = 0
checksum i (c ∷ field) = value c * weight i + checksum (i + 1) field

char_value-eq : (c : ℕ) → char_value c ≡ (if is_mrz_char c then ok (value c) else err value_error)
unfolding char_value value
char_value-eq c = ground arith

weighted_sum-eq :
    (i total : ℕ) (field : Text)
    → weighted_sum i total field
      ≡ (if all is_mrz_char field then ok (total + checksum i field) else err value_error)
unfolding weighted_sum checksum weight
weighted_sum-eq i total [] = ap ok (omega arith)
weighted_sum-eq i total (c ∷ field) = elim (Bool-cases (is_mrz_char c)) [
  | inl good ↦
      rw (char_value-eq c, good)
        (weighted_sum-eq (i + 1) (total + value c * weight i) field
          ∙ ap (λ n. if all is_mrz_char field then ok n else err value_error) (omega arith))
  | inr bad ↦ rw (char_value-eq c, bad)
]

-- The check digit is the weighted sum modulo 10 on texts of the alphabet, and an error on others.
pub compute_check_digit-eq :
    (field : Text)
    → compute_check_digit field
      ≡ (if all is_mrz_char field then ok (checksum 0 field % 10) else err value_error)
unfolding compute_check_digit
compute_check_digit-eq field = rw (weighted_sum-eq 0 0 field) (ground arith)

pub checksum-append :
    (i : ℕ) (s t : Text) → checksum i (s ++ t) ≡ checksum i s + checksum (i + length s) t
unfolding checksum
checksum-append i [] t = rw add-zero (omega arith)
checksum-append i (c ∷ s) t =
    let shift : i + 1 + length s ≡ i + suc (length s) = omega arith in
    rw (checksum-append (i + 1) s t, shift) (omega arith)

pick-cases :
    (n : ℕ)
    → n < 3
    → (get_or weights n 0 ≡ 7) ⊎ ((get_or weights n 0 ≡ 3) ⊎ (get_or weights n 0 ≡ 1))
pick-cases zero h = inl refl
pick-cases (suc zero) h = inr (inl refl)
pick-cases (suc (suc zero)) h = inr (inr refl)
pick-cases (suc (suc (suc n))) h = absurd (omega arith)

cycle-cases :
    (n m : ℕ)
    → n < 3
    → m ≡ (n + 1) % 3
    → (get_or weights n 0 ≡ 7) × (get_or weights m 0 ≡ 3)
      ⊎ ((get_or weights n 0 ≡ 3) × (get_or weights m 0 ≡ 1)
          ⊎ (get_or weights n 0 ≡ 1) × (get_or weights m 0 ≡ 7))
cycle-cases zero m h e = inl (refl, rw e)
cycle-cases (suc zero) m h e = inr (inl (refl, rw e))
cycle-cases (suc (suc zero)) m h e = inr (inr (refl, rw e))
cycle-cases (suc (suc (suc n))) m h e = absurd (omega arith)

-- The weights cycle.
weight-cycle :
    (i : ℕ)
    → (weight i ≡ 7) × (weight (i + 1) ≡ 3)
      ⊎ ((weight i ≡ 3) × (weight (i + 1) ≡ 1) ⊎ (weight i ≡ 1) × (weight (i + 1) ≡ 7))
unfolding weight
weight-cycle i = cycle-cases (i % 3) ((i + 1) % 3) (omega arith) (omega arith)

weight-cases : (i : ℕ) → (weight i ≡ 7) ⊎ ((weight i ≡ 3) ⊎ (weight i ≡ 1))
unfolding weight
weight-cases i = pick-cases (i % 3) (omega arith)

pub compute_check_digit_of_valid :
    (field : Text)
    → all is_mrz_char field ≡ true
    → compute_check_digit field ≡ ok (checksum 0 field % 10)
compute_check_digit_of_valid field h = rw (compute_check_digit-eq field, h)

checksum_split :
    (s t : Text) (a : ℕ)
    → checksum 0 (s ++ a ∷ t)
      ≡ checksum 0 s + (value a * weight (length s) + checksum (length s + 1) t)
unfolding checksum
checksum_split s t a = rw (checksum-append 0 s (a ∷ t), zero-add)

checksum_split_two :
    (s t : Text) (a b : ℕ)
    → checksum 0 (s ++ a ∷ b ∷ t)
      ≡ checksum 0 s
        + (value a * weight (length s)
            + (value b * weight (length s + 1) + checksum (length s + 1 + 1) t))
unfolding checksum
checksum_split_two s t a b = rw (checksum-append 0 s (a ∷ b ∷ t), zero-add)

same_digit :
    (s t : Text)
    → all is_mrz_char s ≡ true
    → all is_mrz_char t ≡ true
    → (compute_check_digit s ≡ compute_check_digit t) ↔ (checksum 0 s % 10 ≡ checksum 0 t % 10)
same_digit s t h k =
    rw (compute_check_digit_of_valid s h, compute_check_digit_of_valid t k)
      ((λ e. ground arith), λ e. ap ok e)

replaced :
    (s t : Text) (a b : ℕ)
    → all is_mrz_char (s ++ a ∷ t) ≡ true
    → is_mrz_char b ≡ true
    → all is_mrz_char (s ++ b ∷ t) ≡ true
replaced s t a b h k =
    ground (arith, all-append is_mrz_char s (a ∷ t), all-append is_mrz_char s (b ∷ t))

exchanged :
    (s t : Text) (a b : ℕ)
    → all is_mrz_char (s ++ a ∷ b ∷ t) ≡ true
    → all is_mrz_char (s ++ b ∷ a ∷ t) ≡ true
exchanged s t a b h =
    ground (arith, all-append is_mrz_char s (a ∷ b ∷ t), all-append is_mrz_char s (b ∷ a ∷ t))

-- Multiplication by a weight is invertible modulo 10.
scaled_mod :
    (p q a b w : ℕ)
    → (w ≡ 7) ⊎ ((w ≡ 3) ⊎ (w ≡ 1))
    → ((p + (a * w + q)) % 10 ≡ (p + (b * w + q)) % 10) ↔ (a % 10 ≡ b % 10)
scaled_mod p q a b w (inl e) = rw e (omega arith)
scaled_mod p q a b w (inr (inl e)) = rw e (omega arith)
scaled_mod p q a b w (inr (inr e)) = rw e (omega arith)

-- Neighbouring weights differ by an even number that is no multiple of 5.
exchanged_mod :
    (p q a b v w : ℕ)
    → (v ≡ 7) × (w ≡ 3) ⊎ ((v ≡ 3) × (w ≡ 1) ⊎ (v ≡ 1) × (w ≡ 7))
    → ((p + (a * v + (b * w + q))) % 10 ≡ (p + (b * v + (a * w + q))) % 10) ↔ (a % 5 ≡ b % 5)
exchanged_mod p q a b v w (inl (e, f)) = rw (e, f) (omega arith)
exchanged_mod p q a b v w (inr (inl (e, f))) = rw (e, f) (omega arith)
exchanged_mod p q a b v w (inr (inr (e, f))) = rw (e, f) (omega arith)

-- In a field of the MRZ alphabet, replacing one character by one of the alphabet keeps the check
-- digit exactly when the two characters have the same value modulo 10.
pub single_substitution :
    (s t : Text) (a b : ℕ)
    → all is_mrz_char (s ++ a ∷ t) ≡ true
    → is_mrz_char b ≡ true
    → (compute_check_digit (s ++ a ∷ t) ≡ compute_check_digit (s ++ b ∷ t))
      ↔ (value a % 10 ≡ value b % 10)
single_substitution s t a b h k = iff_trans (same_digit _ _ h (replaced s t a b h k)) (
    rw (checksum_split s t a, checksum_split s t b)
      (scaled_mod _ _ (value a) (value b) (weight (length s)) (weight-cases (length s))))

-- In a field of the MRZ alphabet, exchanging two neighbours keeps the check digit exactly when
-- their values agree modulo 5.
pub transposition :
    (s t : Text) (a b : ℕ)
    → all is_mrz_char (s ++ a ∷ b ∷ t) ≡ true
    → (compute_check_digit (s ++ a ∷ b ∷ t) ≡ compute_check_digit (s ++ b ∷ a ∷ t))
      ↔ (value a % 5 ≡ value b % 5)
transposition s t a b h = iff_trans (same_digit _ _ h (exchanged s t a b h)) (
    rw (checksum_split_two s t a b, checksum_split_two s t b a)
      (exchanged_mod _ _ (value a) (value b) _ _ (weight-cycle (length s))))
