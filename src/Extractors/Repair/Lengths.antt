-- ===== src/Extractors/Repair/Lengths.antt =====
-- `repair_mrz_chars` of src/hawiya/extractors/mrz.py keeps the length of a line.
use hawiya_ai.Prelude.{
  ℕ, ◌-◌, ◌≤◌, ◌≡◌, refl, List, ◌++◌, arith, length, take, drop, slice, length-append, length-take,
  length-drop, length-map, leb, Bool-cases, inl, inr, leb→le,
}
use hawiya_ai.Text.{Text, translate, translate_char}
use hawiya_ai.Extractors.Mrz.{td3_line_length}
use hawiya_ai.Extractors.Repair.{
  digit_to_alpha, alpha_to_digit, fix, repair_line1, repair_line2, repair_fields,
}

-- A fixed range keeps the length, when it lies within the line.
pub length-fix :
    (table : List (ℕ × ℕ)) (i j : ℕ) (line target : Text)
    → length line ≡ length target
    → i ≤ j
    → j ≤ length target
    → length (fix table i j line target) ≡ length target
unfolding fix translate
length-fix table i j line target h k l =
    let a = length-append (take i target) (translate table (slice i j line) ++ drop j target) in
    let b = length-append (translate table (slice i j line)) (drop j target) in
    let c = length-map (translate_char table) (slice i j line) in
    let d = length-take (j - i) (drop i line) in
    let e = length-drop i line in
    let f = length-take i target in let g = length-drop j target in omega arith

pub length-repair_line1 : (line : Text) → length (repair_line1 line) ≡ length line
unfolding repair_line1
length-repair_line1 line = elim (Bool-cases (leb 5 (length line))) [
  | inl h ↦
      rw h (length-fix digit_to_alpha 2 5 line line refl (omega arith) (leb→le 5 (length line) h))
  | inr h ↦ rw h refl
]

pub length-repair_fields :
    (line : Text) → 44 ≤ length line → length (repair_fields line) ≡ length line
unfolding repair_fields
length-repair_fields line h =
    let l1 = fix alpha_to_digit 9 10 line line in
    let e1 : length l1 ≡ length line =
      length-fix alpha_to_digit 9 10 line line refl (omega arith) (omega arith) in
    let l2 = fix digit_to_alpha 10 13 line l1 in
    let e2 : length l2 ≡ length l1 =
      length-fix digit_to_alpha 10 13 line l1 (omega arith) (omega arith) (omega arith) in
    let l3 = fix alpha_to_digit 13 20 line l2 in
    let e3 : length l3 ≡ length l2 =
      length-fix alpha_to_digit 13 20 line l2 (omega arith) (omega arith) (omega arith) in
    let l4 = fix alpha_to_digit 21 28 line l3 in
    let e4 : length l4 ≡ length l3 =
      length-fix alpha_to_digit 21 28 line l3 (omega arith) (omega arith) (omega arith) in
    let l5 = fix alpha_to_digit 42 43 line l4 in
    let e5 : length l5 ≡ length l4 =
      length-fix alpha_to_digit 42 43 line l4 (omega arith) (omega arith) (omega arith) in
    let e6 : length (fix alpha_to_digit 43 44 line l5) ≡ length l5 =
      length-fix alpha_to_digit 43 44 line l5 (omega arith) (omega arith) (omega arith) in
    omega arith

pub length-repair_line2 : (line : Text) → length (repair_line2 line) ≡ length line
unfolding repair_line2
length-repair_line2 line = elim (Bool-cases (leb td3_line_length (length line))) [
  | inl h ↦ rw h (length-repair_fields line (leb→le td3_line_length (length line) h))
  | inr h ↦ rw h refl
]
