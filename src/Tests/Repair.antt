-- ===== src/Tests/Repair.antt =====
-- Witnesses for the repair of MRZ lines.
use hawiya_ai.Prelude.{◌≡◌, arith}
use hawiya_ai.Text.{Text, text, char_at, translate_char}
use hawiya_ai.Extractors.Repair.{repair_line2}
use hawiya_ai.Extractors.Repair.Places.{table_at, char_at-repair_line2}

abbrev misread : Text
misread = text "A12345678O1ND9OOI124M3OOI018ABCDEFGHIJKLMNSQ"

char_at-repair_line2_example :
    char_at 13 (repair_line2 misread) ≡ translate_char (table_at 13) (char_at 13 misread)
char_at-repair_line2_example = char_at-repair_line2 misread 13 (omega arith)

abbrev misread_name : Text
misread_name = text "P<UT0ERIKSSON<<ANNA<MARIA<<<<<<<<<<<<<<<<<<<"
