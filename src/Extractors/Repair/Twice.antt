-- ===== src/Extractors/Repair/Twice.antt =====
-- Two runs of `repair_mrz_chars` of src/hawiya/extractors/mrz.py.
use hawiya_ai.Prelude.{ℕ, ◌≡◌, List}
use hawiya_ai.Text.{Text, translate_char}

-- A second translation changes nothing.
abbrev IsStable : List (ℕ × ℕ) → Type 0
IsStable table = (c : ℕ) → translate_char table (translate_char table c) ≡ translate_char table c
