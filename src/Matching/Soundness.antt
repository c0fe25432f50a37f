-- ===== src/Matching/Soundness.antt =====
-- What a decision of the matcher says of the stored rows.
use hawiya_ai.Prelude.{
  ◌≡◌, refl, ==-refl, filter-append, ◌++◌, sym, ◌∙◌, ap, inl, inr, Bool, true, false, Option, none,
  some, List, [], ◌∷◌, filter, head?, Option-cases, arith,
}
use mathlib.Core.Bool.{false≢true}
use hawiya_ai.Text.{Text, text_eq_refl}
use hawiya_ai.Date.{Date}
use hawiya_ai.Models.{Uuid, PersonIdentifier, IdentifierType}
use hawiya_ai.Matching.Types.{MatchResult, is_hit}
use hawiya_ai.Matching.Deterministic.{passport_result, emirates_id_result, no_match_result}
use hawiya_ai.Matching.Decision.{active, decide}
use hawiya_ai.Database.World.{Tables}
use hawiya_ai.Database.Repositories.{present, is_active_as, is_active, type_rank}

head-none : {A : Type 0} (rows : List A) → head? rows ≡ none → rows ≡ []
head-none [] h = refl
head-none (row ∷ rows) h = absurd (ground arith)

passport_result-hit :
    (ident : PersonIdentifier) (n d : Bool)
    → (is_hit (passport_result ident n d).action ≡ true)
      × ((passport_result ident n d).person_uuid ≡ some ident.person_uuid)
unfolding passport_result
passport_result-hit ident true true = (refl, refl)
passport_result-hit ident true false = (refl, refl)
passport_result-hit ident false d = (refl, refl)

module _ (t : Tables) (tenant_id : Uuid) (emirates_id passport_number nationality : Option Text)
    (dob : Option Date) where
  abbrev decision : MatchResult
  decision = decide t tenant_id emirates_id passport_number nationality dob

  abbrev by_emirates_id : Option PersonIdentifier
  by_emirates_id = active t tenant_id IdentifierType.emirates_id (present emirates_id)

  abbrev by_passport : Option PersonIdentifier
  by_passport = active t tenant_id IdentifierType.passport (present passport_number)

  -- A person that one of the two numbers leads to is a hit, and the decision names that person.
  abbrev Names : PersonIdentifier → Type 0
  Names ident = (is_hit decision.action ≡ true) × (decision.person_uuid ≡ some ident.person_uuid)

  pub decide-emirates_id : (ident : PersonIdentifier) → by_emirates_id ≡ some ident → Names ident
  unfolding decide emirates_id_result
  decide-emirates_id ident h = rw h (refl, refl)

  pub decide-passport :
      (ident : PersonIdentifier) → by_emirates_id ≡ none → by_passport ≡ some ident → Names ident
  unfolding decide
  decide-passport ident h k = rw (h, k) (passport_result-hit ident _ _)

  -- A miss says that neither number is in use.
  pub decide-miss : is_hit decision.action ≡ false → (by_emirates_id ≡ none) × (by_passport ≡ none)
  decide-miss miss = elim (Option-cases by_emirates_id) [
    | inr (ident, h) ↦ absurd (false≢true (sym miss ∙ (decide-emirates_id ident h).0))
    | inl h ↦ elim (Option-cases by_passport) [
      | inr (ident, k) ↦ absurd (false≢true (sym miss ∙ (decide-passport ident h k).0))
      | inl k ↦ (h, k)
    ]
  ]

-- A number that leads to nothing is free.
pub active-free :
    (t : Tables) (tenant_id : Uuid) (ty : IdentifierType) (value : Option Text)
    → active t tenant_id ty value ≡ none
    → (v : Text) → value ≡ some v
    → filter (is_active_as tenant_id ty v) t.identifiers ≡ []
active-free t tenant_id ty value h v e = head-none _ (ap (active t tenant_id ty) (sym e) ∙ h)

is_active_as_self :
    (row : PersonIdentifier)
    → is_active row.status ≡ true
    → is_active_as row.tenant_id row.identifier_type row.identifier_value row ≡ true
unfolding is_active_as
is_active_as_self row h =
    rw
      (
        ==-refl row.tenant_id,
        ==-refl (type_rank row.identifier_type),
        text_eq_refl row.identifier_value,
      )
      h

-- An active identifier that was added last, under a free key, is the one that its number leads to.
pub active-added :
    (t : Tables) (rows : List PersonIdentifier) (row : PersonIdentifier) (value : Option Text)
    → t.identifiers ≡ rows ++ row ∷ []
    → value ≡ some row.identifier_value
    → filter (is_active_as row.tenant_id row.identifier_type row.identifier_value) rows ≡ []
    → is_active row.status ≡ true
    → active t row.tenant_id row.identifier_type value ≡ some row
active-added t rows row value e v free on =
    let p : PersonIdentifier → Bool =
      is_active_as row.tenant_id row.identifier_type row.identifier_value in
    ap (active t row.tenant_id row.identifier_type) v
    ∙ ap (λ l. head? (filter p l)) e
    ∙ ap head? (filter-append p rows (row ∷ []))
    ∙ rw (free, (is_active_as_self row on), filter) refl

-- Two numbers that lead to nothing are a miss.
pub decide-none :
    (t : Tables) (tenant_id : Uuid) (emirates_id passport_number nationality : Option Text)
    (dob : Option Date)
    → active t tenant_id IdentifierType.emirates_id (present emirates_id) ≡ none
    → active t tenant_id IdentifierType.passport (present passport_number) ≡ none
    → is_hit (decide t tenant_id emirates_id passport_number nationality dob).action ≡ false
unfolding decide no_match_result
decide-none t tenant_id emirates_id passport_number nationality dob h k = rw (h, k) refl
