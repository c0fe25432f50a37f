-- ===== src/Extractors/Ocr/Adapter/Answers.antt =====
-- How a reading of `PassportEyeAdapter` in src/hawiya/extractors/ocr.py ends.
use hawiya_ai.Prelude.{
  ℕ, zero, suc, ◌≡◌, ◌⊎◌, inl, inr, Result, err_injective, ◌==◌, arith, refl, ◌∙◌, ap, Bool, true,
  false, Option, none, some, List, [], ◌∷◌, ok, err, if◌then◌else◌, length,
}
use hawiya_ai.Text.{Text}
use hawiya_ai.Dict.{lookup, remove, remove-insert_self, remove-missing}
use hawiya_ai.Extractors.Types.{
  mrz_format, value_error, assertion_error, unsupported_document, no_mrz_found, ocr_unavailable,
}
use hawiya_ai.Extractors.Classifier.{Bytes, is_pdf}
use hawiya_ai.Extractors.Ocr.{lines_of_raw, first_two, length-first_two}
use hawiya_ai.Extractors.Ocr.Adapter.{
  Backend, Recognised, ImageError, undecodable, unexpected, Files, name_Eq, Raised, error,
  passed_on, Reading, of_attempt, rasterise_pdf, normalised, caught, oriented, first_page, rendered,
  create_file, created, within_file, unlink, written, through_file, or_unavailable, lines_of,
  then_read, read_image, image_of, read_sync, raw_of,
}

module _ (backend : Backend) (files : Files) (unlinks : backend.unlinks ≡ true)
    (unused : lookup files.next files.contents ≡ none) where
  unlinked : (f : Files) → (unlink backend files.next f).contents ≡ remove files.next f.contents
  unlinked f = rw unlinks refl

  written-closes :
      (image : Bytes) (failure : Option Text)
      → (unlink backend files.next
          (written backend files.next image failure (created backend none files).1).1).contents
        ≡ files.contents
  written-closes image (some e) =
      unlinked _
      ∙ remove-insert_self files.next [] files.contents
      ∙ remove-missing files.next files.contents unused
  written-closes image none =
      unlinked _
      ∙ remove-insert_self files.next image _
      ∙ remove-insert_self files.next [] files.contents
      ∙ remove-missing files.next files.contents unused

  within_file-closes :
      (image : Bytes) (failure : Option Text)
      → (within_file backend image (created backend failure files)).1.contents ≡ files.contents
  within_file-closes image (some e) = refl
  within_file-closes image none = written-closes image (backend.write image)

  read_image-closes :
      (image : Reading Bytes) → (read_image backend image files).1.contents ≡ files.contents
  unfolding through_file create_file
  read_image-closes (err e) = refl
  read_image-closes (ok image) = within_file-closes image backend.open_file

  -- However a reading ends, with two lines, an error or an exception of the backend, it leaves the
  -- temporary files as they were, if their removal works and the name of the next one is unused.
  pub read_sync-closes :
      (payload : Bytes) → (read_sync backend payload files).1.contents ≡ files.contents
  unfolding read_sync
  read_sync-closes payload = on_installed backend.has_passporteye _
    where
      on_installed :
          (b : Bool) (refused : Reading (Text × Text))
          → (if b
              then read_image backend (image_of backend payload) files
              else (refused, files)).1.contents
            ≡ files.contents
      on_installed true refused = read_image-closes (image_of backend payload)
      on_installed false refused = refl

module _ (backend : Backend) where
  -- The exceptions that pass through: of Pillow, when it opens or turns an image, and of the temporary
  -- file, when it is made or written.
  abbrev IsUncaught : Text → Type 0
  IsUncaught e =
      ((image : Bytes) × ((backend.open_image image ≡ err (unexpected e))
          ⊎ ((backend.upright_jpeg image ≡ err (unexpected e)) ⊎ (backend.write image ≡ some e))))
      ⊎ (backend.open_file ≡ some e)

  abbrev IsRaised : Raised → Type 0
  IsRaised (error (no_mrz_found message)) = Unit
  IsRaised (error (ocr_unavailable message)) = Unit
  IsRaised (error (mrz_format line size)) = ⊥
  IsRaised (error value_error) = ⊥
  IsRaised (error assertion_error) = ⊥
  IsRaised (error unsupported_document) = ⊥
  IsRaised (passed_on e) = IsUncaught e

  abbrev pub Ends : {A : Type 0} → (A → Type 0) → Reading A → Type 0
  Ends P (ok a) = P a
  Ends P (err e) = IsRaised e

  abbrev pub AreLines : Text × Text → Type 0
  AreLines (line1, line2) = (length line1 ≡ 44) × (length line2 ≡ 44)

  abbrev Any : {A : Type 0} → A → Type 0
  Any a = Unit

  then-Ends :
      {A B : Type 0} (P : B → Type 0) (r : Reading A) (f : A → Reading B)
      → Ends Any r
      → ((a : A) → Ends P (f a))
      → Ends P (then_read r f)
  then-Ends P (ok a) f h k = k a
  then-Ends P (err e) f h k = h

  if-Ends :
      {A : Type 0} (P : A → Type 0) (b : Bool) (x y : Reading A)
      → Ends P x
      → Ends P y
      → Ends P (if b then x else y)
  if-Ends P true x y h k = h
  if-Ends P false x y h k = k

  rendered-Ends : (r : Result Text Bytes) → Ends Any (rendered backend r)
  rendered-Ends (ok jpeg) = tt
  rendered-Ends (err e) = tt

  first_page-Ends : (payload : Bytes) (r : Result Text ℕ) → Ends Any (first_page backend payload r)
  first_page-Ends payload (err e) = tt
  first_page-Ends payload (ok zero) = tt
  first_page-Ends payload (ok (suc n)) = rendered-Ends (backend.first_page_jpeg payload)

  rasterise_pdf-Ends : (payload : Bytes) → Ends Any (rasterise_pdf backend payload)
  unfolding rasterise_pdf
  rasterise_pdf-Ends payload =
      if-Ends Any backend.has_pymupdf _ _ (first_page-Ends payload (backend.open_pdf payload)) tt

  caught-Ends :
      (r : Result ImageError Bytes)
      → ((e : Text) → r ≡ err (unexpected e) → IsUncaught e)
      → Ends Any (caught backend r)
  caught-Ends (ok image) h = tt
  caught-Ends (err (undecodable e)) h = tt
  caught-Ends (err (unexpected e)) h = h e refl

  turned :
      (payload : Bytes) (b : Bool) (e : Text)
      → (if b then ok payload else backend.upright_jpeg payload) ≡ err (unexpected e)
      → IsUncaught e
  turned payload true e h = absurd (ground arith)
  turned payload false e h = inl (payload, inr (inl h))

  oriented-IsUncaught :
      (payload : Bytes) (o : Result ImageError ℕ) (e : Text)
      → backend.open_image payload ≡ o
      → oriented backend payload o ≡ err (unexpected e)
      → IsUncaught e
  oriented-IsUncaught payload (err d) e opened h =
      inl (payload, inl (opened ∙ ap err (err_injective h)))
  oriented-IsUncaught payload (ok orientation) e opened h = turned payload (orientation == 1) e h

  normalised-Ends : (payload : Bytes) → Ends Any (normalised backend payload)
  unfolding normalised
  normalised-Ends payload =
      caught-Ends (oriented backend payload (backend.open_image payload))
        (λ e h. oriented-IsUncaught payload (backend.open_image payload) e refl h)

  image_of-Ends : (payload : Bytes) → Ends Any (image_of backend payload)
  image_of-Ends payload =
      then-Ends Any (if is_pdf payload then rasterise_pdf backend payload else ok payload)
        (normalised backend) (if-Ends Any (is_pdf payload) _ _ (rasterise_pdf-Ends payload) tt)
        normalised-Ends

  first_two-Ends : (lines : List Text) → Ends AreLines (of_attempt (first_two lines))
  unfolding first_two
  first_two-Ends [] = tt
  first_two-Ends (line ∷ []) = tt
  first_two-Ends (line1 ∷ line2 ∷ lines) = length-first_two (line1 ∷ line2 ∷ lines) _ _ refl

  lines_of-Ends : (result : Option Recognised) → Ends AreLines (lines_of backend result)
  unfolding lines_of lines_of_raw
  lines_of-Ends none = tt
  lines_of-Ends (some result) = raw_ends (raw_of backend result)
    where
      raw_ends :
          (raw : Option Text) → Ends AreLines (of_attempt (lines_of_raw backend.splitlines raw))
      raw_ends none = tt
      raw_ends (some []) = tt
      raw_ends (some (c ∷ raw)) = first_two-Ends _

  or_unavailable-Ends : (r : Result Text (Option Recognised)) → Ends Any (or_unavailable backend r)
  or_unavailable-Ends (ok result) = tt
  or_unavailable-Ends (err e) = tt

  written-Ends :
      (name : ℕ) (image : Bytes) (failure : Option Text) (files : Files)
      → backend.write image ≡ failure
      → Ends Any (written backend name image failure files).0
  written-Ends name image (some e) files h = inl (image, inr (inr h))
  written-Ends name image none files h = or_unavailable-Ends _

  within_file-Ends :
      (image : Bytes) (failure : Option Text) (files : Files)
      → backend.open_file ≡ failure
      → Ends Any (within_file backend image (created backend failure files)).0
  within_file-Ends image (some e) files h = inr h
  within_file-Ends image none files h = written-Ends files.next image (backend.write image) _ refl

  read_image-Ends :
      (image : Reading Bytes) (files : Files)
      → Ends Any image
      → Ends AreLines (read_image backend image files).0
  unfolding through_file create_file
  read_image-Ends (err e) files h = h
  read_image-Ends (ok image) files h =
      then-Ends AreLines (within_file backend image (created backend backend.open_file files)).0
        (lines_of backend) (within_file-Ends image backend.open_file files refl) lines_of-Ends

  -- A reading gives two lines of 44 characters, or raises `NoMRZFoundError` or `OCRUnavailableError`;
  -- anything else that it raises is an exception of Pillow that is neither `UnidentifiedImageError`
  -- nor `OSError`, or one of making or writing the temporary file.
  pub read_sync-Ends :
      (payload : Bytes) (files : Files) → Ends AreLines (read_sync backend payload files).0
  unfolding read_sync
  read_sync-Ends payload files = on_installed backend.has_passporteye _
    where
      on_installed :
          (b : Bool) (message : Text)
          → Ends AreLines
              (if b
                then read_image backend (image_of backend payload) files
                else (err (error (ocr_unavailable message)), files)).0
      on_installed true message =
          read_image-Ends (image_of backend payload) files (image_of-Ends payload)
      on_installed false message = tt
