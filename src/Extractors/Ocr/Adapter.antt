-- ===== src/Extractors/Ocr/Adapter.antt =====
-- `PassportEyeAdapter` of src/hawiya/extractors/ocr.py, with its temporary file. The texts of exceptions
-- are those of the backend.
pub mod Answers
use hawiya_ai.Prelude.{
  ℕ, zero, suc, ◌+◌, ◌==◌, ==_iff, Bool, true, false, Option, none, some, List, [], ◌∷◌, ◌++◌,
  Result, ok, err, if◌then◌else◌,
}
use hawiya_ai.Text.{Text, text}
use hawiya_ai.Dict.{Eq, lookup, insert, remove}
use hawiya_ai.Extractors.Types.{Error, Attempt, no_mrz_found, ocr_unavailable}
use hawiya_ai.Extractors.Classifier.{Bytes, is_pdf}
use hawiya_ai.Extractors.Ocr.{lines_of_raw}

-- What Pillow raises: `UnidentifiedImageError` or `OSError`, or something else.
pub data ImageError : Type 0 where
  undecodable : Text → ImageError
  unexpected : Text → ImageError

-- The result of PassportEye: the two entries of `aux`, and the attribute of older releases.
pub record Recognised : Type 0 where
  pub raw_text : Option Text
  pub aux_text : Option Text
  pub mrz_code : Option Text

-- PassportEye, Pillow, PyMuPDF and the file system. An exception is its text.
pub record Backend : Type 0 where
  pub has_passporteye : Bool
  pub has_pymupdf : Bool
  -- how many pages the document has, and its first page at 200 dots per inch
  pub open_pdf : Bytes → Result Text ℕ
  pub first_page_jpeg : Bytes → Result Text Bytes
  -- the EXIF orientation tag, and the image turned by it
  pub open_image : Bytes → Result ImageError ℕ
  pub upright_jpeg : Bytes → Result ImageError Bytes
  -- the exceptions of `NamedTemporaryFile` and of the write, if they raise
  pub open_file : Option Text
  pub write : Bytes → Option Text
  pub unlinks : Bool
  -- `read_mrz` of PassportEye on a file with these bytes
  pub recognise : Bytes → Result Text (Option Recognised)
  pub splitlines : Text → List Text

-- The temporary files, and the name of the next.
pub record Files : Type 0 where
  pub next : ℕ
  pub contents : List (ℕ × Bytes)

instance abbrev pub name_Eq : Eq ℕ
name_Eq = record { eq = λ a b. a == b; eq_iff = ==_iff }

-- What the adapter raises: an error of its own, or an exception that no clause of it catches.
pub data Raised : Type 0 where
  error : Error → Raised
  passed_on : Text → Raised

abbrev pub Reading : Type 0 → Type 0
Reading A = Result Raised A

abbrev pub then_read : {A B : Type 0} → Reading A → (A → Reading B) → Reading B
then_read (ok a) f = f a
then_read (err e) f = err e

abbrev pub of_attempt : {A : Type 0} → Attempt A → Reading A
of_attempt (ok a) = ok a
of_attempt (err e) = err (error e)

abbrev pub no_mrz : {A : Type 0} → Text → Reading A
no_mrz message = err (error (no_mrz_found message))

abbrev pub unavailable : {A : Type 0} → Text → Reading A
unavailable message = err (error (ocr_unavailable message))

-- `a or b` on texts that may be missing.
abbrev pub text_or : Option Text → Option Text → Option Text
text_or none other = other
text_or (some []) other = other
text_or (some (c ∷ s)) other = some (c ∷ s)

module _ (backend : Backend) where
  open backend use {
    has_passporteye, has_pymupdf, open_pdf, first_page_jpeg, open_image, upright_jpeg, open_file,
    write, unlinks, recognise, splitlines,
  }

  abbrev pub rendered : Result Text Bytes → Reading Bytes
  rendered (ok jpeg) = ok jpeg
  rendered (err e) =
      no_mrz (text "could not rasterise PDF (file may be encrypted or corrupt): " ++ e)

  abbrev pub first_page : Bytes → Result Text ℕ → Reading Bytes
  first_page payload (err e) = rendered (err e)
  first_page payload (ok zero) = no_mrz (text "PDF has no pages")
  first_page payload (ok (suc n)) = rendered (first_page_jpeg payload)

  -- `_rasterise_pdf`.
  unfoldable pub rasterise_pdf : Bytes → Reading Bytes
  rasterise_pdf payload =
      if has_pymupdf
      then first_page payload (open_pdf payload)
      else unavailable
          (text "PDF input requires pymupdf — install with `pip install hawiya-ai[ocr]`.")

  -- The first `try` block: an image is encoded again only if it has to be turned.
  abbrev pub caught : Result ImageError Bytes → Reading Bytes
  caught (ok image) = ok image
  caught (err (undecodable e)) =
      no_mrz (text "could not decode image bytes (format unsupported or file corrupt): " ++ e)
  caught (err (unexpected e)) = err (passed_on e)

  abbrev pub oriented : Bytes → Result ImageError ℕ → Result ImageError Bytes
  oriented payload (err e) = err e
  oriented payload (ok orientation) = if orientation == 1 then ok payload else upright_jpeg payload

  unfoldable pub normalised : Bytes → Reading Bytes
  normalised payload = caught (oriented payload (open_image payload))

  -- `NamedTemporaryFile(delete=False)` makes an empty file, or raises and makes none: it stands in
  -- front of the second `try` block, and no clause catches its exception.
  abbrev pub created : Option Text → Files → Reading ℕ × Files
  created (some e) files = (err (passed_on e), files)
  created none files = (
    ok files.next,
    record { next = files.next + 1; contents = insert files.next [] files.contents },
  )

  unfoldable pub create_file : Files → Reading ℕ × Files
  create_file files = created open_file files

  -- `os.unlink`, whose `OSError` is suppressed.
  abbrev pub unlink : ℕ → Files → Files
  unlink name files =
      if unlinks then record files { contents = remove name files.contents } else files

  -- `read_mrz(tmp.name, ...)` on what the file holds.
  abbrev pub or_unavailable : Result Text (Option Recognised) → Reading (Option Recognised)
  or_unavailable (ok result) = ok result
  or_unavailable (err e) = unavailable (text "OCR backend failed: " ++ e)

  abbrev pub contents_of : Option Bytes → Bytes
  contents_of none = []
  contents_of (some b) = b

  -- The second `try` block, up to its `finally` clause.
  abbrev pub written : ℕ → Bytes → Option Text → Files → Reading (Option Recognised) × Files
  written name image (some e) files = (err (passed_on e), files)
  written name image none files =
      let files : Files = record files { contents = insert name image files.contents } in
      (or_unavailable (recognise (contents_of (lookup name files.contents))), files)

  -- The second `try` block with its `finally` clause, if there is a file.
  abbrev pub within_file : Bytes → Reading ℕ × Files → Reading (Option Recognised) × Files
  within_file image (err e, files) = (err e, files)
  within_file image (ok name, files) =
      let (result, files) = written name image (write image) files in (result, unlink name files)

  unfoldable pub through_file : Bytes → Files → Reading (Option Recognised) × Files
  through_file image files = within_file image (create_file files)

  -- What comes behind the file.
  abbrev pub raw_of : Recognised → Option Text
  raw_of result = text_or result.raw_text (text_or result.aux_text result.mrz_code)

  unfoldable pub lines_of : Option Recognised → Reading (Text × Text)
  lines_of none = no_mrz (text "no MRZ region found in image")
  lines_of (some result) = of_attempt (lines_of_raw splitlines (raw_of result))

  abbrev pub read_image : Reading Bytes → Files → Reading (Text × Text) × Files
  read_image (err e) files = (err e, files)
  read_image (ok image) files =
      let (result, files) = through_file image files in (then_read result lines_of, files)

  abbrev pub image_of : Bytes → Reading Bytes
  image_of payload =
      then_read (if is_pdf payload then rasterise_pdf payload else ok payload) normalised

  -- `_read_sync`.
  unfoldable pub read_sync : Bytes → Files → Reading (Text × Text) × Files
  read_sync payload files = if has_passporteye then read_image (image_of payload) files else (
    unavailable (
        text
          "PassportEye is not installed. Install with `pip install hawiya-ai[ocr]` and ensure Tesseract is on PATH."),
    files,
  )
