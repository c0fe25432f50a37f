-- ===== src/Extractors/Repair/Places.antt =====
-- `repair_mrz_chars` of src/hawiya/extractors/mrz.py, character by character.
use hawiya_ai.Prelude.{
  ℕ, ◌-◌, ◌≤◌, ◌<◌, ◌≡◌, refl, ◌∙◌, ap, Bool, true, false, ◌&&◌, inl, inr, ◌⊎◌, List, [], ◌++◌,
  arith, leb, ltb, if◌then◌else◌, length, take, drop, slice, map, length-take, length-drop,
  length-map,
}
use hawiya_ai.Text.{Text, char_at, translate, translate_char}
use hawiya_ai.Text.Chars.{
  char_at-append_left, char_at-append_right, char_at-take, char_at-drop, char_at-map,
}
use hawiya_ai.Extractors.Mrz.{td3_line_length}
use hawiya_ai.Extractors.Repair.Lengths.{length-fix}
use hawiya_ai.Extractors.Repair.{
  digit_to_alpha, alpha_to_digit, fix, repair_line1, repair_fields, repair_line2,
}

abbrev pub inside : ℕ → ℕ → ℕ → Bool
inside i j k = leb i k && ltb k j

inside-cases :
    (i j k : ℕ)
    → ((inside i j k ≡ true) × (i ≤ k) × (k < j)) ⊎ ((inside i j k ≡ false) × ((k < i) ⊎ (j ≤ k)))
inside-cases i j k = ground arith

-- A fixed range has the characters of the line, translated, and the rest those of the target.
char_at-fix :
    (table : List (ℕ × ℕ)) (i j k : ℕ) (line target : Text)
    → length line ≡ length target
    → i ≤ j
    → j ≤ length target
    → char_at k (fix table i j line target)
      ≡ (if inside i j k then translate_char table (char_at k line) else char_at k target)
unfolding fix translate
char_at-fix table i j k line target h l m =
    let middle : Text = map (translate_char table) (slice i j line) in
    let a : length (take i target) ≡ i = omega (arith, length-take i target) in
    let b : length (slice i j line) ≡ j - i =
      omega (arith, length-take (j - i) (drop i line), length-drop i line) in
    let c : length middle ≡ j - i = length-map (translate_char table) (slice i j line) ∙ b in
    elim (inside-cases i j k) [
      | inl (e, below, above) ↦ rw e (
          char_at-append_right (take i target) (middle ++ drop j target) k (k - i)
            (omega (arith, a, below))
          ∙ char_at-append_left middle (drop j target) (k - i) (omega (arith, c, below, above))
          ∙ char_at-map (translate_char table) (slice i j line) (k - i)
              (omega (arith, b, below, above))
          ∙ ap (translate_char table) (
              char_at-take (j - i) (k - i) (drop i line) (omega (arith, below, above))
              ∙ char_at-drop i (k - i) k line (omega (arith, below))))
      | inr (e, inl below) ↦ rw e (
          char_at-append_left (take i target) (middle ++ drop j target) k (omega (arith, a, below))
          ∙ char_at-take i k target below)
      | inr (e, inr above) ↦ rw e (
          char_at-append_right (take i target) (middle ++ drop j target) k (k - i)
            (omega (arith, a, l, above))
          ∙ char_at-append_right middle (drop j target) (k - i) (k - j) (omega (arith, c, l, above))
          ∙ char_at-drop j (k - j) k target (omega (arith, above)))
    ]

-- The table for a place of the second line.
abbrev pub table_at : ℕ → List (ℕ × ℕ)
table_at k =
    if inside 43 44 k
    then alpha_to_digit
    else if inside 42 43 k
    then alpha_to_digit
    else if inside 21 28 k
    then alpha_to_digit
    else if inside 13 20 k
    then alpha_to_digit
    else if inside 10 13 k
    then digit_to_alpha
    else if inside 9 10 k
    then alpha_to_digit
    else []

choose :
    (b : Bool) (t u : List (ℕ × ℕ)) (c d : ℕ)
    → d ≡ translate_char u c
    → (if b then translate_char t c else d) ≡ translate_char (if b then t else u) c
choose true t u c d h = refl
choose false t u c d h = h

char_at-repair_fields :
    (line : Text) (k : ℕ)
    → 44 ≤ length line
    → char_at k (repair_fields line) ≡ translate_char (table_at k) (char_at k line)
unfolding repair_fields
char_at-repair_fields line k h =
    let l1 = fix alpha_to_digit 9 10 line line in
    let n1 : length l1 ≡ length line =
      length-fix alpha_to_digit 9 10 line line refl (omega arith) (omega arith) in
    let l2 = fix digit_to_alpha 10 13 line l1 in
    let n2 : length l2 ≡ length l1 =
      length-fix digit_to_alpha 10 13 line l1 (omega arith) (omega arith) (omega arith) in
    let l3 = fix alpha_to_digit 13 20 line l2 in
    let n3 : length l3 ≡ length l2 =
      length-fix alpha_to_digit 13 20 line l2 (omega arith) (omega arith) (omega arith) in
    let l4 = fix alpha_to_digit 21 28 line l3 in
    let n4 : length l4 ≡ length l3 =
      length-fix alpha_to_digit 21 28 line l3 (omega arith) (omega arith) (omega arith) in
    let l5 = fix alpha_to_digit 42 43 line l4 in
    let n5 : length l5 ≡ length l4 =
      length-fix alpha_to_digit 42 43 line l4 (omega arith) (omega arith) (omega arith) in
    char_at-fix alpha_to_digit 43 44 k line l5 (omega arith) (omega arith) (omega arith)
    ∙ choose (inside 43 44 k) alpha_to_digit _ (char_at k line) (char_at k l5) (
        char_at-fix alpha_to_digit 42 43 k line l4 (omega arith) (omega arith) (omega arith)
        ∙ choose (inside 42 43 k) alpha_to_digit _ (char_at k line) (char_at k l4) (
            char_at-fix alpha_to_digit 21 28 k line l3 (omega arith) (omega arith) (omega arith)
            ∙ choose (inside 21 28 k) alpha_to_digit _ (char_at k line) (char_at k l3) (
                char_at-fix alpha_to_digit 13 20 k line l2 (omega arith) (omega arith) (omega arith)
                ∙ choose (inside 13 20 k) alpha_to_digit _ (char_at k line) (char_at k l2) (
                    char_at-fix digit_to_alpha 10 13 k line l1 (omega arith) (omega arith)
                      (omega arith)
                    ∙ choose (inside 10 13 k) digit_to_alpha _ (char_at k line) (char_at k l1) (
                        char_at-fix alpha_to_digit 9 10 k line line refl (omega arith) (omega arith)
                        ∙ choose (inside 9 10 k) alpha_to_digit [] (char_at k line) (char_at k line)
                            refl)))))

-- In a line of 44 characters or more, each character is replaced on its own, by the table of its place:
-- letters become digits at 9, from 13 to 19, from 21 to 27, at 42 and at 43, digits become letters from
-- 10 to 12, and all others stay.
pub char_at-repair_line2 :
    (line : Text) (k : ℕ)
    → td3_line_length ≤ length line
    → char_at k (repair_line2 line) ≡ translate_char (table_at k) (char_at k line)
unfolding repair_line2
char_at-repair_line2 line k h =
    let long : leb td3_line_length (length line) ≡ true = ground arith in
    rw long (char_at-repair_fields line k h)

-- The table for a place of the first line.
abbrev pub country_table_at : ℕ → List (ℕ × ℕ)
country_table_at k = if inside 2 5 k then digit_to_alpha else []

pub char_at-repair_line1 :
    (line : Text) (k : ℕ)
    → 5 ≤ length line
    → char_at k (repair_line1 line) ≡ translate_char (country_table_at k) (char_at k line)
unfolding repair_line1
char_at-repair_line1 line k h =
    let long : leb 5 (length line) ≡ true = ground arith in
    rw long (
      char_at-fix digit_to_alpha 2 5 k line line refl (omega arith) (omega arith)
      ∙ choose (inside 2 5 k) digit_to_alpha [] (char_at k line) (char_at k line) refl)
