-- ===== src/Services/Identity/Repeat.antt =====
-- `IdentityService.resolve` twice on the same passport.
use hawiya_ai.Services.Identity.Verdicts.{miss-hit, found-miss}
use hawiya_ai.Services.Identity.Keys.{identifiers_after, persons_after, created-IsStep}
use hawiya_ai.Database.Steps.{IsOpen}
use hawiya_ai.Prelude.{
  ◌≡◌, refl, sym, ◌∙◌, ap, ap₂, Bool, true, false, ◌&&◌, Option, none, some, [], ◌∷◌, ◌++◌, ok,
  filter, filter-append, head?, is_some, arith, ==-refl, if◌then◌else◌,
}
use mathlib.Core.Path.{subst}
use hawiya_ai.Text.{Text, text, text_eq_refl}
use hawiya_ai.Date.{Date, date_eq_refl}
use hawiya_ai.Models.{Uuid, Fields, Person, PersonIdentifier, IdentifierType, MatchAction}
use hawiya_ai.Matching.Types.{MatchResult}
use hawiya_ai.Matching.Deterministic.{
  passport_result, nationality_match, dob_match, same_text, same_date, conf_passport_full,
  conf_passport_number_only,
}
use hawiya_ai.Matching.Decision.{active, person_of, decide, decide_passport}
use hawiya_ai.Matching.Soundness.{decide-miss, active-free, active-added}
use hawiya_ai.Database.Environment.{Environment}
use hawiya_ai.Database.World.{World, Tables, commit}
use hawiya_ai.Database.Keys.{IsKeyed, IsFresh}
use hawiya_ai.Database.Repositories.{present, is_active_as, is_person}
use hawiya_ai.Services.Extraction.{ExtractionResult}
use hawiya_ai.Services.Identity.{ResolveResult, passport_row, is_miss, resolve_extraction}
use hawiya_ai.Services.Identity.Reading.{field, confidence_of, parse_iso_date}
use hawiya_ai.Services.Identity.Effect.{
  document_number, nationality, date_of_birth, match_result, new_person, passport_rows, resolved,
  resolve_extraction-eq,
}

pub present-present : (o : Option Text) → present (present o) ≡ present o
present-present none = refl
present-present (some []) = refl
present-present (some (c ∷ s)) = refl

same_text_refl : (o : Option Text) → same_text (present o) (present o) ≡ is_some (present o)
unfolding same_text
same_text_refl none = refl
same_text_refl (some []) = refl
same_text_refl (some (c ∷ s)) = text_eq_refl (c ∷ s)

same_date_refl : (o : Option Date) → same_date o o ≡ is_some o
unfolding same_date
same_date_refl none = refl
same_date_refl (some d) = date_eq_refl d

-- The verdict on a known passport: the same person, and how sure the matcher is.
abbrev pub IsKnown : ResolveResult → Uuid → (demographics : Bool) → Type 0
IsKnown r person_uuid demographics =
    (r.person_uuid ≡ some person_uuid)
    × (r.action ≡ (if demographics then MatchAction.auto_matched else MatchAction.suggested_match))
    × (r.confidence ≡ (if demographics then conf_passport_full else conf_passport_number_only))

-- A result that only passes the matcher's decision on.
abbrev passed_on : ExtractionResult → MatchResult → ResolveResult
passed_on y m = record {
  extraction_id = y.extraction_id;
  action = m.action;
  person_uuid = m.person_uuid;
  confidence = m.confidence;
  method = m.method;
  fields = y.fields;
}

known :
    (y : ExtractionResult) (row : PersonIdentifier) (n d : Bool)
    → IsKnown (passed_on y (passport_result row n d)) row.person_uuid (n && d)
unfolding passport_result
known y row true true = (refl, refl, refl)
known y row true false = (refl, refl, refl)
known y row false d = (refl, refl, refl)

module _ (env : Environment) (tenant_id : Uuid) (input_hash : Text) (x : ExtractionResult)
    (w : World) (keyed : IsKeyed w.stored) (fresh : IsFresh env w.drawn w.stored)
    (no_identifiers : w.pending.identifiers ≡ []) (no_persons : w.pending.persons ≡ [])
    (miss : is_miss (match_result env tenant_id input_hash x w).action ≡ true) (number : Text)
    (has_number : document_number env tenant_id input_hash x w ≡ some number) where
  abbrev person : Person
  person = new_person env tenant_id input_hash x w

  -- The tables when the first request is committed.
  abbrev committed : Tables
  committed = commit (resolved env tenant_id input_hash x w true).1

  abbrev row : PersonIdentifier
  row =
      passport_row tenant_id person.person_uuid x.fields
        (confidence_of (text "document_number") x.confidence_per_field) number

  present-number : present (document_number env tenant_id input_hash x w) ≡ some number
  present-number = present-present (field (text "document_number") x.fields) ∙ has_number

  start : IsOpen env w
  start = record {
    no_persons = no_persons;
    no_identifiers = no_identifiers;
    keyed = keyed;
    fresh = fresh;
  }

  committed_identifiers : committed.identifiers ≡ w.stored.identifiers ++ row ∷ []
  committed_identifiers =
      identifiers_after env tenant_id input_hash x w start
      ∙ ap (λ o. w.stored.identifiers ++ passport_rows env tenant_id input_hash x w o)
          present-number

  committed_persons : committed.persons ≡ w.stored.persons ++ person ∷ []
  committed_persons = persons_after env tenant_id input_hash x w start

  number-free :
      filter (is_active_as tenant_id IdentifierType.passport number) w.stored.identifiers ≡ []
  number-free =
      active-free w.stored tenant_id IdentifierType.passport
        (present (document_number env tenant_id input_hash x w))
        (decide-miss w.stored tenant_id none (document_number env tenant_id input_hash x w)
          (nationality env tenant_id input_hash x w) (date_of_birth env tenant_id input_hash x w)
          (miss-hit _ miss)).1
        number present-number

  -- The commit keeps the keys of the tables.
  pub committed-IsKeyed : IsKeyed committed
  committed-IsKeyed = (created-IsStep env tenant_id input_hash x w start miss).keyed

  found_row : active committed tenant_id IdentifierType.passport (some number) ≡ some row
  unfolding passport_row
  found_row =
      active-added committed w.stored.identifiers row (some number) committed_identifiers refl
        number-free refl

  person-itself : is_person tenant_id person.person_uuid person ≡ true
  unfolding is_person
  person-itself = rw (==-refl tenant_id, ==-refl person.person_uuid) refl

  found_person : person_of committed tenant_id person.person_uuid ≡ some person
  found_person =
      ap (λ l. head? (filter (is_person tenant_id person.person_uuid) l)) committed_persons
      ∙ ap head?
          (filter-append (is_person tenant_id person.person_uuid) w.stored.persons (person ∷ []))
      ∙ rw (fresh.unused w.drawn (omega arith) tenant_id, person-itself, filter) refl

  -- What the matcher decides on the same passport in the committed tables.
  abbrev again : MatchResult
  again =
      decide committed tenant_id none (document_number env tenant_id input_hash x w)
        (nationality env tenant_id input_hash x w) (date_of_birth env tenant_id input_hash x w)

  abbrev has_nationality : Bool
  has_nationality = is_some (nationality env tenant_id input_hash x w)

  abbrev has_birth_date : Bool
  has_birth_date = is_some (date_of_birth env tenant_id input_hash x w)

  abbrev judged : Option Person → MatchResult
  judged o =
      passport_result row (nationality_match o (nationality env tenant_id input_hash x w))
        (dob_match o (date_of_birth env tenant_id input_hash x w))

  decide_again : again ≡ passport_result row has_nationality has_birth_date
  unfolding decide passport_row
  decide_again =
      ap
        (decide_passport committed tenant_id none (document_number env tenant_id input_hash x w)
          (nationality env tenant_id input_hash x w) (date_of_birth env tenant_id input_hash x w))
        (ap (active committed tenant_id IdentifierType.passport) present-number ∙ found_row)
      ∙ ap judged found_person
      ∙ ap₂ (passport_result row)
          (same_text_refl (nationality env tenant_id input_hash x w)
            ∙ ap is_some (present-present (field (text "nationality") x.fields)))
          (same_date_refl (date_of_birth env tenant_id input_hash x w))

  module _ (y : ExtractionResult) (same : y.fields ≡ x.fields) (v : World)
      (next : v.stored ≡ committed) (next_hash : Text) (create_if_missing : Bool) where
    match_again :
        match_result env tenant_id next_hash y v
        ≡ passport_result row has_nationality has_birth_date
    match_again =
        ap₂
          (λ t (f : Fields).
            decide t tenant_id none (present (field (text "document_number") f))
              (present (field (text "nationality") f))
              (parse_iso_date (field (text "date_of_birth") f)))
          next same
        ∙ decide_again

    resolve_again :
        resolve_extraction env tenant_id next_hash create_if_missing y v
        ≡ resolved env tenant_id next_hash y v false
    resolve_again =
        resolve_extraction-eq env tenant_id next_hash y v
          (subst IsKeyed (sym next) committed-IsKeyed) create_if_missing
        ∙ ap (λ m. resolved env tenant_id next_hash y v (is_miss m.action && create_if_missing))
            match_again
        ∙ ap (λ b. resolved env tenant_id next_hash y v (b && create_if_missing))
            (found-miss row has_nationality has_birth_date)

    -- Over keyed rows, with the UUIDs still to be drawn unused and neither a person nor an
    -- identifier pending, an extraction with a document number that the matcher misses is resolved
    -- to a new person. When that is committed, an extraction with the same fields is resolved to
    -- the same person: it is matched automatically, with confidence 0.99, if the fields give a
    -- nationality and a birth date, and else suggested, with confidence 0.90.
    pub resolve-twice :
        ((r : ResolveResult) × (resolve_extraction env tenant_id input_hash true x w
            ≡ (ok r, (resolved env tenant_id input_hash x w true).1))
          × (r.action ≡ MatchAction.new_record)
          × (r.person_uuid ≡ some person.person_uuid))
        × ((r : ResolveResult) × ((resolve_extraction env tenant_id next_hash create_if_missing y
                v).0
              ≡ ok r)
            × IsKnown r person.person_uuid (has_nationality && has_birth_date))
    unfolding passport_row
    resolve-twice = (
      (
        _,
        resolve_extraction-eq env tenant_id input_hash x w keyed true
            ∙ ap (λ b. resolved env tenant_id input_hash x w (b && true)) miss,
        refl,
        refl,
      ),
      (
        passed_on y (passport_result row has_nationality has_birth_date),
        ap (λ r. r.0) resolve_again ∙ ap (λ m. ok (passed_on y m)) match_again,
        known y row has_nationality has_birth_date,
      ),
    )
