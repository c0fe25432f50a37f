-- ===== src/Services/Person/Registry.antt =====
-- `PersonService.create` of src/hawiya/services/person_service.py against the registry of identifiers.
use hawiya_ai.Prelude.{
  ◌≡◌, refl, sym, ◌∙◌, ap, ap₂, Bool, true, false, Option, none, some, List, ◌++◌, Result, ok, err,
  Option-cases, inl, inr,
}
use mathlib.Core.Path.{subst}
use mathlib.Core.List.{append-nil}
use hawiya_ai.Text.{Text}
use hawiya_ai.Models.{Uuid, Person, PersonIdentifier, IdentifierType}
use hawiya_ai.Matching.Types.{MatchResult, is_hit}
use hawiya_ai.Matching.Decision.{active}
use hawiya_ai.Matching.Soundness.{decide-emirates_id, decide-passport, decide-none, active-free}
use hawiya_ai.Database.Environment.{Environment}
use hawiya_ai.Database.World.{World, Failure, possible_duplicate}
use hawiya_ai.Database.Registry.{
  Registry, bearer, registry_of, register, registered, registered-active, registry_of-register,
  register-same,
}
use hawiya_ai.Database.Repositories.{present}
use hawiya_ai.Services.Person.{NewPerson, create, passport_row, emirates_id_row}
use hawiya_ai.Services.Person.Duplicates.{IsReady}
use hawiya_ai.Services.Person.Effect.{
  passport_rows, emirates_id_rows, inserted, after_insert, guarded, guard_result, create-eq,
}
use hawiya_ai.Services.Person.Keys.{IsFree, with_passport-HasKeys, identifiers_after}

abbrev pub or_else : Option Uuid → Option Uuid → Option Uuid
or_else none o = o
or_else (some u) o = some u

-- The specification of a creation: who stands in its way, and the registry behind it.
abbrev pub in_the_way : Registry → Uuid → (emirates_id passport_number : Option Text) → Option Uuid
in_the_way r tenant_id emirates_id passport_number =
    or_else (registered r tenant_id IdentifierType.emirates_id emirates_id)
      (registered r tenant_id IdentifierType.passport passport_number)

abbrev pub unless_taken :
    Option Uuid → Registry → Uuid → (emirates_id passport_number : Option Text) → Uuid → Registry
unless_taken (some other) r tenant_id emirates_id passport_number person_uuid = r
unless_taken none r tenant_id emirates_id passport_number person_uuid =
    register (register r tenant_id IdentifierType.passport passport_number person_uuid) tenant_id
      IdentifierType.emirates_id emirates_id person_uuid

-- The answer to a creation, by who stands in its way.
abbrev pub Answers : Option Uuid → Result Failure Person → Uuid → Type 0
Answers none r person_uuid = (p : Person) × (r ≡ ok p) × (p.person_uuid ≡ person_uuid)
Answers (some other) r person_uuid =
    (m : MatchResult) × (r ≡ err (possible_duplicate m)) × (m.person_uuid ≡ some other)

module _ (tenant_id person_uuid : Uuid) (new : NewPerson) (rows : List PersonIdentifier) (t : Uuid)
    (ty : IdentifierType) (value : Text) where
  passport-register :
      (number : Option Text)
      → IsFree rows tenant_id IdentifierType.passport number
      → registry_of (rows ++ passport_rows tenant_id person_uuid new number) t ty value
        ≡ register
            (registry_of rows)
            tenant_id
            IdentifierType.passport
            number
            person_uuid
            t
            ty
            value
  passport-register none free = ap (λ l. registry_of l t ty value) (append-nil rows)
  passport-register (some n) free =
      registry_of-register rows (passport_row tenant_id person_uuid new n) refl (free n refl) t ty
        value

  emirates_id-register :
      (number : Option Text)
      → IsFree rows tenant_id IdentifierType.emirates_id number
      → registry_of (rows ++ emirates_id_rows tenant_id person_uuid number) t ty value
        ≡ register
            (registry_of rows)
            tenant_id
            IdentifierType.emirates_id
            number
            person_uuid
            t
            ty
            value
  emirates_id-register none free = ap (λ l. registry_of l t ty value) (append-nil rows)
  emirates_id-register (some n) free =
      registry_of-register rows (emirates_id_row tenant_id person_uuid n) refl (free n refl) t ty
        value

module _ (env : Environment) (tenant_id : Uuid) (new : NewPerson) (w : World)
    (ready : IsReady env tenant_id w) where
  abbrev before : Registry
  before = registry_of w.stored.identifiers

  abbrev pub way : Option Uuid
  way = in_the_way before tenant_id (present new.emirates_id) (present new.passport_number)

  abbrev by_emirates_id : Option PersonIdentifier
  by_emirates_id = active w.stored tenant_id IdentifierType.emirates_id (present new.emirates_id)

  abbrev by_passport : Option PersonIdentifier
  by_passport = active w.stored tenant_id IdentifierType.passport (present new.passport_number)

  way-eq : way ≡ or_else (bearer by_emirates_id) (bearer by_passport)
  way-eq =
      ap₂ or_else
        (registered-active w.stored tenant_id IdentifierType.emirates_id (present new.emirates_id))
        (registered-active w.stored tenant_id IdentifierType.passport (present new.passport_number))

  -- The outcome of a creation does what the specification says, when someone stands in its way and
  -- when nobody does.
  abbrev pub Refines : Option Uuid → Result Failure Person × World → Type 0
  Refines other r =
      Answers other r.0 (env.uuid4 w.drawn)
      × ((t : Uuid) (ty : IdentifierType) (value : Text)
          → registry_of r.1.stored.identifiers t ty value
            ≡ unless_taken other before tenant_id (present new.emirates_id)
                (present new.passport_number) (env.uuid4 w.drawn) t ty value)

  abbrev created : Bool → Result Failure Person × World
  created hit = guarded env new tenant_id w hit

  taken :
      (ident : PersonIdentifier)
      → way ≡ some ident.person_uuid
      → (is_hit (guard_result env new tenant_id w).action ≡ true)
        × ((guard_result env new tenant_id w).person_uuid ≡ some ident.person_uuid)
      → Refines way (created (is_hit (guard_result env new tenant_id w).action))
  taken ident e (hit, named) =
      subst (λ (h : Bool). Refines way (created h)) (sym hit)
        (subst (λ (o : Option Uuid). Refines o (created true)) (sym e)
          ((guard_result env new tenant_id w, refl, named), λ t ty value. refl))

  inserted-registry :
      by_emirates_id ≡ none
      → by_passport ≡ none
      → (t : Uuid) (ty : IdentifierType) (value : Text)
      → registry_of (after_insert env new tenant_id w).stored.identifiers t ty value
        ≡ unless_taken none before tenant_id
            (present new.emirates_id)
            (present new.passport_number)
            (env.uuid4 w.drawn)
            t
            ty
            value
  inserted-registry h k t ty value =
      let u = env.uuid4 w.drawn in
      let with_passport =
        w.stored.identifiers ++ passport_rows tenant_id u new (present new.passport_number) in
      ap (λ l. registry_of l t ty value) (identifiers_after env new tenant_id w ready.clean)
      ∙ emirates_id-register tenant_id u new with_passport t ty value (present new.emirates_id)
          (with_passport-HasKeys tenant_id u new w.stored.identifiers (present new.passport_number)
            (present new.emirates_id) ready.keyed.identifiers
            (active-free w.stored tenant_id IdentifierType.passport _ k)
            (active-free w.stored tenant_id IdentifierType.emirates_id _ h)).1
      ∙ register-same (registry_of with_passport)
          (register before tenant_id IdentifierType.passport (present new.passport_number) u)
          tenant_id IdentifierType.emirates_id (present new.emirates_id) u t ty value
          (passport-register tenant_id u new w.stored.identifiers t ty value
            (present new.passport_number)
            (active-free w.stored tenant_id IdentifierType.passport _ k))

  untaken :
      by_emirates_id ≡ none
      → by_passport ≡ none
      → Refines way (created (is_hit (guard_result env new tenant_id w).action))
  untaken h k =
      subst (λ (hit : Bool). Refines way (created hit))
        (sym (
          decide-none w.stored tenant_id new.emirates_id new.passport_number new.nationality
            new.date_of_birth h k))
        (subst (λ (o : Option Uuid). Refines o (created false))
          (sym (way-eq ∙ ap₂ (λ o o'. or_else (bearer o) (bearer o')) h k))
          ((inserted env new tenant_id w, refl, refl), inserted-registry h k))

  guarded-Refines : Refines way (created (is_hit (guard_result env new tenant_id w).action))
  guarded-Refines = elim (Option-cases by_emirates_id) [
    | inr (ident, h) ↦ taken ident (way-eq ∙ ap (λ o. or_else (bearer o) (bearer by_passport)) h) (
        decide-emirates_id w.stored tenant_id new.emirates_id new.passport_number new.nationality
          new.date_of_birth ident h)
    | inl h ↦ elim (Option-cases by_passport) [
      | inr (ident, k) ↦ taken ident (way-eq ∙ ap₂ (λ o o'. or_else (bearer o) (bearer o')) h k) (
          decide-passport w.stored tenant_id new.emirates_id new.passport_number new.nationality
            new.date_of_birth ident h k)
      | inl k ↦ untaken h k
    ]
  ]

  -- From a state where the tenant's context is set, nothing is pending, the rows are keyed and the
  -- UUIDs still to be drawn are unused, a creation does to the registry of identifiers what its
  -- specification says. If the Emirates ID, or else the passport number, stands for a person, it
  -- raises a possible duplicate that names that person and the registry is the same; otherwise it
  -- makes the person with the next UUID, and the numbers that are given stand for that person.
  pub create-Refines : Refines way (create env tenant_id new w)
  create-Refines =
      subst (λ (r : Result Failure Person × World). Refines way r)
        (sym (create-eq env new tenant_id w ready.context ready.keyed)) guarded-Refines
