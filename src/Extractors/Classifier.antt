-- ===== src/Extractors/Classifier.antt =====
-- src/hawiya/extractors/document_classifier.py: the format of an upload, by its first bytes.
pub mod Formats
use hawiya_ai.Prelude.{
  ℕ, ◌≡◌, sym, arith, err_injective, Bool, true, false, ◌&&◌, ◌||◌, Option, none, some, List, [],
  ◌∷◌, ◌++◌, leb, if◌then◌else◌, length, take, slice, ok, err,
}
use hawiya_ai.Text.{Text, text, text_eq, starts_with}
use hawiya_ai.Extractors.Types.{Attempt, Error, DocumentType, unsupported_document}

-- `bytes`, each below 256.
abbrev pub Bytes : Type 0
Bytes = List ℕ

abbrev jpeg_prefix : Bytes
jpeg_prefix = 0xff ∷ 0xd8 ∷ 0xff ∷ []

abbrev png_prefix : Bytes
png_prefix = 0x89 ∷ (text "PNG" ++ 0x0d ∷ 0x0a ∷ 0x1a ∷ 0x0a ∷ [])

abbrev pub accepted_prefixes : List (Bytes × Text)
accepted_prefixes =
    (jpeg_prefix, text "image/jpeg")
    ∷ (png_prefix, text "image/png")
    ∷ (text "%PDF-", text "application/pdf")
    ∷ (text "II*" ++ 0 ∷ [], text "image/tiff")
    ∷ (text "MM" ++ 0 ∷ b'*' ∷ [], text "image/tiff")
    ∷ []

abbrev pub heic_brands : List Bytes
heic_brands =
    text "heic"
    ∷ text "heix"
    ∷ text "heim"
    ∷ text "heis"
    ∷ text "mif1"
    ∷ text "msf1"
    ∷ text "heif"
    ∷ []

abbrev pub magic_probe_len : ℕ
magic_probe_len = 12

unfoldable pub one_of : Bytes → List Bytes → Bool
one_of brand [] = false
one_of brand (b ∷ brands) = text_eq brand b || one_of brand brands

unfoldable pub is_heic : Bytes → Bool
is_heic head =
    leb 12 (length head)
    && (text_eq (slice 4 8 head) (text "ftyp") && one_of (slice 8 12 head) heic_brands)

-- The loop over the accepted prefixes.
unfoldable pub mime_of : List (Bytes × Text) → Bytes → Option Text
mime_of [] head = none
mime_of ((prefix, mime) ∷ more) head =
    if starts_with prefix head then some mime else mime_of more head

abbrev pub heic_or_none : Bool → Option Text
heic_or_none true = some (text "image/heic")
heic_or_none false = none

unfoldable pub detect_format : Bytes → Option Text
detect_format payload =
    let head = take magic_probe_len payload in
    elim (mime_of accepted_prefixes head) [
      | some mime ↦ some mime
      | none ↦ heic_or_none (is_heic head)
    ]

unfoldable pub is_pdf : Bytes → Bool
is_pdf payload = text_eq (take 5 payload) (text "%PDF-")

-- The end of the loop of `classify`.
abbrev pub accepted : Option Text → Attempt DocumentType
accepted none = err unsupported_document
accepted (some mime) = ok DocumentType.passport

refused : (mime : Option Text) (e : Error) → accepted mime ≡ err e → e ≡ unsupported_document
refused none e h = sym (err_injective h)
refused (some mime) e h = absurd (ground arith)

-- `classify`. Both refusals at the end raise the same error, with different advice in the message.
unfoldable pub classify : Bytes → Attempt DocumentType
classify [] = err unsupported_document
classify (b ∷ payload) = accepted (mime_of accepted_prefixes (take magic_probe_len (b ∷ payload)))

-- The one error that `classify` raises.
pub classify-unsupported :
    (payload : Bytes) (e : Error) → classify payload ≡ err e → e ≡ unsupported_document
unfolding classify
classify-unsupported [] e h = sym (err_injective h)
classify-unsupported (b ∷ payload) e h =
    refused (mime_of accepted_prefixes (take magic_probe_len (b ∷ payload))) e h
