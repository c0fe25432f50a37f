-- ===== src/Extractors/Ocr.antt =====
-- The last steps of `PassportEyeAdapter._read_sync` in src/hawiya/extractors/ocr.py: from the text that
-- the OCR backend has read to two lines of an MRZ. `splitlines` is Python's.
pub mod Adapter
use hawiya_ai.Prelude.{
  ok_injective, ℕ, ◌-◌, ◌≤◌, ◌≡◌, refl, sym, ◌∙◌, ap, not, Option, none, some, List, [], ◌∷◌, ◌++◌,
  arith, length, take, drop, slice, filter, is_empty, ok, err, length-append, length-take,
  length-drop, length-map, length-replicate, replicate, leb, Bool-cases, inl, inr, leb→le,
}
use hawiya_ai.Text.{Text, text, ljust, show, translate, translate_char}
use hawiya_ai.Text.Strip.{strip}
use hawiya_ai.Extractors.Types.{Attempt, no_mrz_found}
use hawiya_ai.Extractors.Mrz.{td3_line_length}
use hawiya_ai.Extractors.Repair.Lengths.{length-repair_line1, length-repair_line2}
use hawiya_ai.Extractors.Repair.{
  digit_to_alpha, alpha_to_digit, fix, repair_line1, repair_line2, repair_fields, repair_mrz_chars,
}

abbrev pub td3_line_count : ℕ
td3_line_count = 2

-- `line.ljust(44, "<")[:44]`.
unfoldable pub fit : Text → Text
fit line = take 44 (ljust 44 b'<' line)

-- The lines that are left, of which there should be two.
unfoldable pub first_two : List Text → Attempt (Text × Text)
first_two [] = err (no_mrz_found (text "expected 2 MRZ lines, got " ++ show 0))
first_two (line ∷ []) = err (no_mrz_found (text "expected 2 MRZ lines, got " ++ show 1))
first_two (line1 ∷ line2 ∷ lines) = ok (repair_mrz_chars (fit line1) (fit line2))

unfoldable pub lines_of_raw : (splitlines : Text → List Text) → Option Text → Attempt (Text × Text)
lines_of_raw splitlines none = err (no_mrz_found (text "OCR returned no MRZ text"))
lines_of_raw splitlines (some []) = err (no_mrz_found (text "OCR returned no MRZ text"))
lines_of_raw splitlines (some (c ∷ raw)) =
    first_two (filter (λ line. not (is_empty (strip line))) (splitlines (c ∷ raw)))

length-ljust : (n c : ℕ) (line : Text) → n ≤ length (ljust n c line)
unfolding ljust
length-ljust n c line = omega (
  arith,
  length-append line (replicate (n - length line) c),
  length-replicate (n - length line) c,
)

length-fit : (line : Text) → length (fit line) ≡ 44
unfolding fit
length-fit line =
    let filled : Text = ljust 44 b'<' line in
    omega (arith, length-take 44 filled, length-ljust 44 b'<' line)

length-first_two :
    (lines : List Text) (line1 line2 : Text)
    → first_two lines ≡ ok (line1, line2)
    → (length line1 ≡ 44) × (length line2 ≡ 44)
unfolding first_two repair_mrz_chars
length-first_two [] line1 line2 h = absurd (ground arith)
length-first_two (line ∷ []) line1 line2 h = absurd (ground arith)
length-first_two (a ∷ b ∷ lines) line1 line2 h =
    let e = ok_injective h in
    (
      ap length (sym (ap (λ p. p.0) e)) ∙ length-repair_line1 (fit a) ∙ length-fit a,
      ap length (sym (ap (λ p. p.1) e)) ∙ length-repair_line2 (fit b) ∙ length-fit b,
    )

-- However the raw text is split into lines, if the adapter hands over two lines, each has 44
-- characters.
pub length-lines_of_raw :
    (splitlines : Text → List Text) (raw : Option Text) (line1 line2 : Text)
    → lines_of_raw splitlines raw ≡ ok (line1, line2)
    → (length line1 ≡ 44) × (length line2 ≡ 44)
unfolding lines_of_raw
length-lines_of_raw splitlines none line1 line2 h = absurd (ground arith)
length-lines_of_raw splitlines (some []) line1 line2 h = absurd (ground arith)
length-lines_of_raw splitlines (some (c ∷ raw)) line1 line2 h = length-first_two _ line1 line2 h
