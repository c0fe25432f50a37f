-- ===== src/Services/Identity/Registry.antt =====
-- `IdentityService.resolve` of src/hawiya/services/identity_service.py against the registry of
-- identifiers.
use hawiya_ai.Prelude.{
  ◌≡◌, refl, sym, ◌∙◌, ap, Bool, true, false, ◌&&◌, Option, none, some, ◌++◌, Result, ok,
}
use mathlib.Core.Path.{subst}
use mathlib.Core.List.{append-nil}
use hawiya_ai.Text.{Text, text}
use hawiya_ai.Models.{Uuid, PersonIdentifier, IdentifierType}
use hawiya_ai.Matching.Deterministic.{no_match_result}
use hawiya_ai.Matching.Decision.{active, decide}
use hawiya_ai.Matching.Soundness.{active-free}
use hawiya_ai.Database.Environment.{Environment}
use hawiya_ai.Database.World.{World, Failure, both, commit}
use hawiya_ai.Database.Steps.{IsOpen, committed-identifiers}
use hawiya_ai.Database.Registry.{
  Registry, bearer, registered, registered-active, registry_of, register, registry_of-register,
}
use hawiya_ai.Database.Repositories.{present}
use hawiya_ai.Services.Extraction.{ExtractionResult}
use hawiya_ai.Services.Identity.{ResolveResult, is_miss, passport_row, resolve_extraction}
use hawiya_ai.Services.Identity.Reading.{confidence_of}
use hawiya_ai.Services.Identity.Effect.{
  document_number, match_result, passport_rows, resolved, resolve_extraction-eq,
}
use hawiya_ai.Services.Identity.Keys.{identifiers_after}
use hawiya_ai.Services.Identity.Verdicts.{found-miss, found-person}

-- The specification of a resolution: the person that it settles on, and the registry behind it.
abbrev pub settles : Option Uuid → (create_if_missing : Bool) → Uuid → Option Uuid
settles (some u) create_if_missing person_uuid = some u
settles none true person_uuid = some person_uuid
settles none false person_uuid = none

abbrev pub registry_after :
    Option Uuid → (create_if_missing : Bool) → Registry → Uuid → Option Text → Uuid → Registry
registry_after (some u) create_if_missing r tenant_id number person_uuid = r
registry_after none false r tenant_id number person_uuid = r
registry_after none true r tenant_id number person_uuid =
    register r tenant_id IdentifierType.passport number person_uuid

module _ (env : Environment) (tenant_id : Uuid) (input_hash : Text) (x : ExtractionResult)
    (w : World) (start : IsOpen env w) where
  abbrev before : Registry
  before = registry_of w.stored.identifiers

  abbrev number : Option Text
  number = present (document_number env tenant_id input_hash x w)

  abbrev by_passport : Option PersonIdentifier
  by_passport = active w.stored tenant_id IdentifierType.passport number

  abbrev pub known : Option Uuid
  known = registered before tenant_id IdentifierType.passport number

  -- The outcome of a resolution does what the specification says.
  abbrev pub Refines : Option Uuid → Bool → Result Failure ResolveResult × World → Type 0
  Refines o create_if_missing r =
      ((result : ResolveResult) × (r.0 ≡ ok result)
        × (result.person_uuid ≡ settles o create_if_missing (env.uuid4 w.drawn)))
      × ((t : Uuid) (ty : IdentifierType) (value : Text)
          → registry_of (commit r.1).identifiers t ty value
            ≡ registry_after o create_if_missing before tenant_id number (env.uuid4 w.drawn) t ty
                value)

  abbrev outcome : Bool → Result Failure ResolveResult × World
  outcome b = resolved env tenant_id input_hash x w b

  same_registry :
      (t : Uuid) (ty : IdentifierType) (value : Text)
      → registry_of (commit (outcome false).1).identifiers t ty value ≡ before t ty value
  unfolding commit both
  same_registry t ty value =
      ap (λ l. registry_of l t ty value) (committed-identifiers env tenant_id w start)

  passes_on :
      (ident : PersonIdentifier)
      → by_passport ≡ some ident
      → (is_miss (match_result env tenant_id input_hash x w).action ≡ false)
        × ((match_result env tenant_id input_hash x w).person_uuid ≡ some ident.person_uuid)
  unfolding decide
  passes_on ident h = rw h (found-miss ident _ _, found-person ident _ _)

  found :
      (ident : PersonIdentifier)
      → by_passport ≡ some ident
      → (create_if_missing : Bool)
      → Refines (some ident.person_uuid) create_if_missing (
          outcome (is_miss (match_result env tenant_id input_hash x w).action && create_if_missing))
  found ident h create_if_missing =
      let (not_missed, named) = passes_on ident h in
      subst
        (λ (miss : Bool).
          Refines (some ident.person_uuid) create_if_missing (outcome (miss && create_if_missing)))
        (sym not_missed) ((_, refl, named), same_registry)

  rows-register :
      (o : Option Text)
      → by_passport ≡ none
      → o ≡ number
      → (t : Uuid) (ty : IdentifierType) (value : Text)
      → registry_of
          (w.stored.identifiers ++ passport_rows env tenant_id input_hash x w o)
          t
          ty
          value
        ≡ register before tenant_id IdentifierType.passport o (env.uuid4 w.drawn) t ty value
  unfolding passport_row
  rows-register none h e t ty value = ap (λ l. registry_of l t ty value) (append-nil _)
  rows-register (some n) h e t ty value =
      registry_of-register w.stored.identifiers
        (passport_row tenant_id (env.uuid4 w.drawn) x.fields
          (confidence_of (text "document_number") x.confidence_per_field) n)
        refl (active-free w.stored tenant_id IdentifierType.passport number h n (sym e)) t ty value

  created_registry :
      by_passport ≡ none
      → (t : Uuid) (ty : IdentifierType) (value : Text)
      → registry_of (commit (outcome true).1).identifiers t ty value
        ≡ register before tenant_id IdentifierType.passport number (env.uuid4 w.drawn) t ty value
  created_registry h t ty value =
      ap (λ l. registry_of l t ty value) (identifiers_after env tenant_id input_hash x w start)
      ∙ rows-register number h refl t ty value

  missed-result :
      by_passport ≡ none
      → (is_miss (match_result env tenant_id input_hash x w).action ≡ true)
        × ((match_result env tenant_id input_hash x w).person_uuid ≡ none)
  unfolding decide no_match_result
  missed-result h = rw h (refl, refl)

  missed :
      by_passport ≡ none
      → (create_if_missing : Bool) → Refines none create_if_missing (outcome create_if_missing)
  missed h true = ((_, refl, refl), created_registry h)
  missed h false = ((_, refl, (missed-result h).1), same_registry)

  outcome-Refines :
      (o : Option PersonIdentifier)
      → by_passport ≡ o
      → (create_if_missing : Bool)
      → Refines (bearer o) create_if_missing (
          outcome (is_miss (match_result env tenant_id input_hash x w).action && create_if_missing))
  outcome-Refines (some ident) h create_if_missing = found ident h create_if_missing
  outcome-Refines none h create_if_missing =
      subst (λ (miss : Bool). Refines none create_if_missing (outcome (miss && create_if_missing)))
        (sym (missed-result h).0) (missed h create_if_missing)

  -- From tables whose rows are keyed and whose UUIDs still to be drawn are unused, with no person and
  -- no identifier pending, the pipeline behind the extraction never raises and does to the registry
  -- of identifiers what its specification says, once it is committed. If the document number stands
  -- for a person, it settles on that person; otherwise, if a creation is asked for, on the person
  -- with the next UUID, and the document number, if there is one, stands for that person; otherwise
  -- on nobody.
  pub resolve_extraction-Refines :
      (create_if_missing : Bool)
      → Refines known create_if_missing
          (resolve_extraction env tenant_id input_hash create_if_missing x w)
  resolve_extraction-Refines create_if_missing =
      subst
        (λ (o : Option Uuid).
          Refines o create_if_missing
            (resolve_extraction env tenant_id input_hash create_if_missing x w))
        (sym (registered-active w.stored tenant_id IdentifierType.passport number))
        (subst
          (λ (r : Result Failure ResolveResult × World).
            Refines (bearer by_passport) create_if_missing r)
          (sym (resolve_extraction-eq env tenant_id input_hash x w start.keyed create_if_missing))
          (outcome-Refines by_passport refl create_if_missing))
