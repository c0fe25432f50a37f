-- ===== src/Scripts/Td3Layout.antt =====
-- Where the fields of a TD3 line 2 stand, for the slices of src/hawiya/extractors/mrz.py.
use hawiya_ai.Prelude.{
  ℕ, zero, suc, ◌+◌, ◌≡◌, refl, ◌∙◌, [], ◌∷◌, ◌++◌, arith, length, slice, drop, drop_after,
  take-append, length-append,
}
use hawiya_ai.Text.{Text, char_at}
use hawiya_ai.Extractors.Mrz.{composite_field}

-- Line 2, from its fields and single characters.
abbrev pub line2_of : (doc nat dob exp per : Text) (dc bc sex ec pc cc : ℕ) → Text
line2_of doc nat dob exp per dc bc sex ec pc cc =
    doc ++ (dc ∷ (nat ++ (dob ++ (bc ∷ (sex ∷ (exp ++ (ec ∷ (per ++ pc ∷ cc ∷ []))))))))

-- The text of its composite check digit.
abbrev pub composite_of : (doc dob exp per : Text) (dc bc ec pc : ℕ) → Text
composite_of doc dob exp per dc bc ec pc =
    doc ++ (dc ∷ (dob ++ (bc ∷ (exp ++ (ec ∷ (per ++ pc ∷ []))))))

char_at-drop : (k : ℕ) (s : Text) → char_at k s ≡ char_at 0 (drop k s)
char_at-drop zero [] = refl
char_at-drop zero (c ∷ s) = refl
char_at-drop (suc k) [] = refl
char_at-drop (suc k) (c ∷ s) = char_at-drop k s

-- A first line, and the parts of a second line, at their lengths.
pub record Layout : Type 0 where
  pub line1 : Text
  pub doc : Text
  pub nat : Text
  pub dob : Text
  pub exp : Text
  pub per : Text
  pub dc : ℕ
  pub bc : ℕ
  pub sex : ℕ
  pub ec : ℕ
  pub pc : ℕ
  pub cc : ℕ
  pub h1 : length line1 ≡ 44
  pub hd : length doc ≡ 9
  pub hn : length nat ≡ 3
  pub hb : length dob ≡ 6
  pub he : length exp ≡ 6
  pub hp : length per ≡ 14

module _ (l : Layout) where
  open l use {line1, doc, nat, dob, exp, per, dc, bc, sex, ec, pc, cc, h1, hd, hn, hb, he, hp}

  abbrev after_exp : Text
  after_exp = ec ∷ (per ++ pc ∷ cc ∷ [])

  abbrev after_dob : Text
  after_dob = bc ∷ (sex ∷ (exp ++ after_exp))

  abbrev after_nat : Text
  after_nat = dob ++ after_dob

  abbrev after_doc : Text
  after_doc = dc ∷ (nat ++ after_nat)

  abbrev pub line2 : Text
  line2 = line2_of doc nat dob exp per dc bc sex ec pc cc

  abbrev pub full : Text
  full = line1 ++ line2

  pub length-line2 : length line2 ≡ 44
  length-line2 = simp (length-append, hd, hn, hb, he, hp)

  -- What is left of line 2 past the document number, the nationality, the expiry, the personal number.
  past_doc : (k m : ℕ) → k ≡ 9 + m → drop k line2 ≡ drop m after_doc
  past_doc k m e = drop_after doc after_doc 9 m k hd e

  past_nat : (k m : ℕ) → k ≡ 13 + m → drop k line2 ≡ drop m after_nat
  past_nat k m e =
      past_doc k (suc (3 + m)) (omega arith) ∙ drop_after nat after_nat 3 m (3 + m) hn refl

  past_dob : (k m : ℕ) → k ≡ 19 + m → drop k line2 ≡ drop m after_dob
  past_dob k m e = past_nat k (6 + m) (omega arith) ∙ drop_after dob after_dob 6 m (6 + m) hb refl

  past_exp : (k m : ℕ) → k ≡ 27 + m → drop k line2 ≡ drop m after_exp
  past_exp k m e =
      past_dob k (suc (suc (6 + m))) (omega arith) ∙ drop_after exp after_exp 6 m (6 + m) he refl

  past_per : (k m : ℕ) → k ≡ 42 + m → drop k line2 ≡ drop m (pc ∷ cc ∷ [])
  past_per k m e =
      past_exp k (suc (14 + m)) (omega arith) ∙ drop_after per (pc ∷ cc ∷ []) 14 m (14 + m) hp refl

  in_full : (k m : ℕ) → k ≡ 44 + m → drop k full ≡ drop m line2
  in_full k m e = drop_after line1 line2 44 m k h1 e

  -- The fields in line 2.
  pub at_doc : slice 0 9 line2 ≡ doc
  at_doc = take-append doc after_doc 9 hd

  pub at_nat : slice 10 13 line2 ≡ nat
  at_nat = rw (past_doc 10 1 refl) (take-append nat after_nat 3 hn)

  pub at_dob : slice 13 19 line2 ≡ dob
  at_dob = rw (past_nat 13 0 refl) (take-append dob after_dob 6 hb)

  pub at_sex : char_at 20 line2 ≡ sex
  at_sex = rw (char_at-drop 20 line2, past_dob 20 1 refl)

  pub at_exp : slice 21 27 line2 ≡ exp
  at_exp = rw (past_dob 21 2 refl) (take-append exp after_exp 6 he)

  pub at_per : slice 28 42 line2 ≡ per
  at_per = rw (past_exp 28 1 refl) (take-append per (pc ∷ cc ∷ []) 14 hp)

  -- The slices of both lines together are those of line 2.
  pub full_doc : drop 44 full ≡ line2
  full_doc = in_full 44 0 refl

  pub full_doc_check : drop 53 full ≡ after_doc
  full_doc_check = in_full 53 9 refl ∙ past_doc 9 0 refl

  pub full_dob : drop 57 full ≡ after_nat
  full_dob = in_full 57 13 refl ∙ past_nat 13 0 refl

  pub full_dob_check : drop 63 full ≡ after_dob
  full_dob_check = in_full 63 19 refl ∙ past_dob 19 0 refl

  pub full_exp : drop 65 full ≡ exp ++ after_exp
  full_exp = in_full 65 21 refl ∙ past_dob 21 2 refl

  pub full_exp_check : drop 71 full ≡ after_exp
  full_exp_check = in_full 71 27 refl ∙ past_exp 27 0 refl

  pub full_per : drop 72 full ≡ per ++ pc ∷ cc ∷ []
  full_per = in_full 72 28 refl ∙ past_exp 28 1 refl

  pub full_per_check : drop 86 full ≡ pc ∷ cc ∷ []
  full_per_check = in_full 86 42 refl ∙ past_per 42 0 refl

  pub check_chars :
      (char_at 53 full ≡ dc)
      × (char_at 63 full ≡ bc)
      × (char_at 71 full ≡ ec)
      × (char_at 86 full ≡ pc)
      × (char_at 87 full ≡ cc)
  check_chars = (
    rw (char_at-drop 53 full, full_doc_check),
    rw (char_at-drop 63 full, full_dob_check),
    rw (char_at-drop 71 full, full_exp_check),
    rw (char_at-drop 86 full, full_per_check),
    rw (char_at-drop 87 full, in_full 87 43 refl, past_per 43 1 refl),
  )

  pub fields_of_full :
      (slice 44 53 full ≡ doc)
      × (slice 57 63 full ≡ dob)
      × (slice 65 71 full ≡ exp)
      × (slice 72 86 full ≡ per)
  fields_of_full = (
    rw full_doc (take-append doc after_doc 9 hd),
    rw full_dob (take-append dob after_dob 6 hb),
    rw full_exp (take-append exp after_exp 6 he),
    rw full_per (take-append per (pc ∷ cc ∷ []) 14 hp),
  )

  pub composite_of-full : composite_field full ≡ composite_of doc dob exp per dc bc ec pc
  unfolding composite_field
  composite_of-full =
      let (d, b, e, p) = fields_of_full in
      rw (d, b, e, p, full_doc_check, full_dob_check, full_exp_check, full_per_check)
