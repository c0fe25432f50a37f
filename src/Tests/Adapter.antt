-- ===== src/Tests/Adapter.antt =====
-- Witnesses for the OCR adapter: a backend that reads a PDF with one page, and one that Pillow fails.
use hawiya_ai.Prelude.{◌≡◌, refl, true, none, some, [], ◌∷◌, ok, err}
use hawiya_ai.Text.{text, text_eq, ljust}
use hawiya_ai.Text.Strip.{strip, lstrip_if, rstrip_if, is_space}
use hawiya_ai.Dict.{lookup, insert, remove}
use hawiya_ai.Extractors.Classifier.{is_pdf}
use hawiya_ai.Extractors.Ocr.{lines_of_raw, fit, first_two}
use hawiya_ai.Extractors.Repair.{repair_mrz_chars}
use hawiya_ai.Extractors.Ocr.Adapter.{
  Backend, unexpected, Files, name_Eq, passed_on, read_sync, rasterise_pdf, normalised,
  through_file, create_file, lines_of,
}
use hawiya_ai.Extractors.Ocr.Adapter.Answers.{read_sync-closes, Ends, AreLines, read_sync-Ends}
use hawiya_ai.Tests.Sample.{line1, line2}

abbrev backend : Backend
backend = record {
  has_passporteye = true;
  has_pymupdf = true;
  open_pdf = λ payload. ok 1;
  first_page_jpeg = λ payload. ok (text "jpeg");
  open_image = λ image. ok 6;
  upright_jpeg = λ image. ok (text "upright");
  open_file = none;
  write = λ image. none;
  unlinks = true;
  recognise =
      λ image. ok (some (record { raw_text = some []; aux_text = some image; mrz_code = none }));
  splitlines = λ raw. line1 ∷ [] ∷ line2 ∷ [];
}

abbrev files : Files
files = record { next = 3; contents = (2, text "other") ∷ [] }

unused : lookup files.next files.contents ≡ none
unfolding lookup
unused = refl

-- A scan that lies on its side is turned, written, read and repaired.
scanned : (read_sync backend (text "%PDF-1.7") files).0 ≡ ok (line1, line2)
unfolding read_sync rasterise_pdf is_pdf normalised through_file create_file lookup insert remove
    lines_of lines_of_raw first_two fit ljust strip lstrip_if rstrip_if is_space repair_mrz_chars
    text_eq
scanned = refl

read_sync-closes_example :
    (read_sync backend (text "%PDF-1.7") files).1.contents ≡ (2, text "other") ∷ []
read_sync-closes_example = read_sync-closes backend files refl unused (text "%PDF-1.7")

read_sync-Ends_example :
    Ends backend (AreLines backend) (read_sync backend (text "%PDF-1.7") files).0
read_sync-Ends_example = read_sync-Ends backend (text "%PDF-1.7") files

-- So does one of the file system, in front of the `try` block; no file is left.
disk_full :
    read_sync
      (record backend { open_file = some (text "No space left on device") })
      (text "jpeg")
      files
    ≡ (err (passed_on (text "No space left on device")), files)
unfolding read_sync is_pdf normalised through_file create_file text_eq
disk_full = refl

-- An exception of Pillow that is no `OSError` gets through.
bombed :
    (read_sync
      (record backend { open_image = λ image. err (unexpected (text "DecompressionBombError")) })
      (text "jpeg")
      files).0
    ≡ err (passed_on (text "DecompressionBombError"))
unfolding read_sync is_pdf normalised text_eq
bombed = refl
