-- ===== src/Extractors/Classifier/Formats.antt =====
-- Which uploads `classify` of src/hawiya/extractors/document_classifier.py takes, and how
-- `detect_format` agrees with it.
use hawiya_ai.Prelude.{
  ℕ, zero, suc, ◌≤◌, ◌≡◌, refl, ◌∙◌, ap, ap₂, ◌⊎◌, inl, inr, Bool, true, false, not, ◌&&◌, Option,
  none, some, List, [], ◌∷◌, arith, leb, leb→le, if◌then◌else◌, length, take, all, and-true,
  and_intro, ok, err, ◌==◌,
}
use mathlib.Core.List.{Mem, mem-cons_self, mem-cons_of_mem}
use hawiya_ai.Text.{Text, text, starts_with}
use hawiya_ai.Extractors.Types.{DocumentType, unsupported_document}
use hawiya_ai.Extractors.Classifier.{
  Bytes, accepted_prefixes, magic_probe_len, mime_of, heic_or_none, is_heic, detect_format,
  accepted, classify,
}

-- A prefix that fits in the probe is seen in it.
starts_with-take :
    (prefix s : Bytes) (n : ℕ)
    → length prefix ≤ n
    → starts_with prefix (take n s) ≡ starts_with prefix s
unfolding starts_with
starts_with-take [] s n h = refl
starts_with-take (a ∷ prefix) s zero h = absurd (omega arith)
starts_with-take (a ∷ prefix) [] (suc n) h = refl
starts_with-take (a ∷ prefix) (b ∷ s) (suc n) h =
    ap (λ t. (a == b) && t) (starts_with-take prefix s n (omega arith))

abbrev fits : ℕ → List (Bytes × Text) → Bool
fits n = all (λ row. leb (length row.0) n)

mime_of-take :
    (table : List (Bytes × Text)) (s : Bytes) (n : ℕ)
    → fits n table ≡ true
    → mime_of table (take n s) ≡ mime_of table s
unfolding mime_of
mime_of-take [] s n h = refl
mime_of-take ((prefix, mime) ∷ table) s n h =
    let (head, rest) = and-true (leb (length prefix) n) (fits n table) h in
    ap₂ (λ b m. if b then some mime else m) (starts_with-take prefix s n (leb→le _ _ head))
      (mime_of-take table s n rest)

-- No prefix of the table stands at the head.
abbrev pub is_unknown : List (Bytes × Text) → Bytes → Bool
is_unknown table payload = all (λ row. not (starts_with row.0 payload)) table

-- A row of the table whose prefix stands at the head.
pub record IsKnown (table : List (Bytes × Text)) (payload : Bytes) (mime : Text) : Type 0 where
  pub prefix : Bytes
  pub row : Mem (prefix, mime) table
  pub begins : starts_with prefix payload ≡ true

mime_of-cases :
    (table : List (Bytes × Text)) (s : Bytes)
    → ((mime_of table s ≡ none) × (is_unknown table s ≡ true))
      ⊎ ((mime : Text) × (mime_of table s ≡ some mime) × IsKnown table s mime)
unfolding mime_of
mime_of-cases [] s = inl (refl, refl)
mime_of-cases ((prefix, mime) ∷ table) s = step (starts_with prefix s) refl (mime_of-cases table s)
  where
    step :
        (b : Bool)
        → starts_with prefix s ≡ b
        → ((mime_of table s ≡ none) × (is_unknown table s ≡ true))
          ⊎ ((m : Text) × (mime_of table s ≡ some m) × IsKnown table s m)
        → (((if b then some mime else mime_of table s) ≡ none)
            × (is_unknown ((prefix, mime) ∷ table) s ≡ true))
          ⊎ ((m : Text) × ((if b then some mime else mime_of table s) ≡ some m)
              × IsKnown ((prefix, mime) ∷ table) s m)
    step true e rest = inr (mime, refl, record { prefix = prefix; row = mem-cons_self; begins = e })
    step false e (inl (m, u)) = inl (m, and_intro _ _ (ap not e) u)
    step false e (inr (m, h, known)) = inr (
      m,
      h,
      record {
        prefix = known.prefix;
        row = mem-cons_of_mem (prefix, mime) known.row;
        begins = known.begins;
      },
    )

classify-eq : (payload : Bytes) → classify payload ≡ accepted (mime_of accepted_prefixes payload)
unfolding classify mime_of starts_with
classify-eq [] = refl
classify-eq (b ∷ payload) =
    ap accepted (mime_of-take accepted_prefixes (b ∷ payload) magic_probe_len refl)

abbrev or_heic : Bool → Option Text → Option Text
or_heic heic found = elim found [ some mime ↦ some mime | none ↦ heic_or_none heic ]

detect_format-eq :
    (payload : Bytes)
    → detect_format payload
      ≡ or_heic (is_heic (take magic_probe_len payload)) (mime_of accepted_prefixes payload)
unfolding detect_format
detect_format-eq payload =
    ap (or_heic (is_heic (take magic_probe_len payload)))
      (mime_of-take accepted_prefixes payload magic_probe_len refl)

heic_or_none-cases :
    (heic : Bool) → (heic_or_none heic ≡ none) ⊎ (heic_or_none heic ≡ some (text "image/heic"))
heic_or_none-cases true = inr refl
heic_or_none-cases false = inl refl

abbrev pub IsAccepted : Bytes → Type 0
IsAccepted payload =
    (classify payload ≡ ok DocumentType.passport)
    × ((mime : Text) × (detect_format payload ≡ some mime) × IsKnown accepted_prefixes payload mime)

abbrev pub IsRefused : Bytes → Type 0
IsRefused payload =
    (classify payload ≡ err unsupported_document)
    × (is_unknown accepted_prefixes payload ≡ true)
    × ((detect_format payload ≡ none) ⊎ (detect_format payload ≡ some (text "image/heic")))

-- An upload is classified as a passport exactly if one of the accepted prefixes stands at its head,
-- and then `detect_format` gives the type of such a prefix; every other upload is refused, and for it
-- `detect_format` gives nothing or HEIC.
pub classify-detect_format : (payload : Bytes) → IsAccepted payload ⊎ IsRefused payload
classify-detect_format payload = elim (mime_of-cases accepted_prefixes payload) [
  | inr (mime, e, known) ↦ inl (
    classify-eq payload ∙ ap accepted e,
    (
      mime,
      detect_format-eq payload ∙ ap (or_heic (is_heic (take magic_probe_len payload))) e,
      known,
    ),
  )
  | inl (e, unknown) ↦
      let d : detect_format payload ≡ heic_or_none (is_heic (take magic_probe_len payload)) =
        detect_format-eq payload ∙ ap (or_heic (is_heic (take magic_probe_len payload))) e in
      inr (
        classify-eq payload ∙ ap accepted e,
        unknown,
        elim (heic_or_none-cases (is_heic (take magic_probe_len payload))) [
          | inl n ↦ inl (d ∙ n)
          | inr h ↦ inr (d ∙ h)
        ],
      )
]
