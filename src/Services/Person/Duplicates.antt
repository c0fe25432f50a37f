-- ===== src/Services/Person/Duplicates.antt =====
-- The duplicate guard of `PersonService.create`, over more than one creation.
use hawiya_ai.Prelude.{
  ◌≡◌, refl, sym, ◌∙◌, ap, ap₂, Bool, true, false, ◌||◌, none, some, List, ◌++◌, ok, err,
  Option-cases, inl, inr, is_some,
}
use mathlib.Core.Path.{subst}
use mathlib.Core.List.{append-nil}
use mathlib.Core.Bool.{false≢true}
use hawiya_ai.Text.{Text}
use hawiya_ai.Models.{Uuid, Person, PersonIdentifier, IdentifierType}
use hawiya_ai.Matching.Types.{MatchResult, is_hit}
use hawiya_ai.Matching.Decision.{active, decide}
use hawiya_ai.Matching.Soundness.{
  decide-miss, decide-emirates_id, decide-passport, active-free, active-added,
}
use hawiya_ai.Database.Environment.{Environment}
use hawiya_ai.Database.World.{World, no_rows, possible_duplicate}
use hawiya_ai.Database.Keys.{IsKeyed, IsFresh}
use hawiya_ai.Database.Repositories.{present}
use hawiya_ai.Services.Person.{NewPerson, create, passport_row, emirates_id_row}
use hawiya_ai.Services.Person.Effect.{
  passport_rows, emirates_id_rows, inserted, after_insert, guarded, guard_result, create-eq,
}
use hawiya_ai.Services.Person.Keys.{IsFree, with_passport-HasKeys, identifiers_after, inserted-keys}

-- The state in which a request of a tenant starts: its context is set, nothing is pending, and the
-- tables are keyed.
pub record IsReady (env : Environment) (tenant_id : Uuid) (w : World) : Type 0 where
  pub context : w.tenant_id ≡ some tenant_id
  pub clean : w.pending ≡ no_rows
  pub keyed : IsKeyed w.stored
  pub fresh : IsFresh env w.drawn w.stored

module _ (env : Environment) (tenant_id : Uuid) (new : NewPerson) (w : World)
    (ready : IsReady env tenant_id w) where
  guarded-IsReady :
      (hit : Bool)
      → is_hit (guard_result env new tenant_id w).action ≡ hit
      → IsReady env tenant_id (guarded env new tenant_id w hit).1
  guarded-IsReady true h = ready
  guarded-IsReady false h =
      let (k, f) = inserted-keys env new tenant_id w ready.clean ready.keyed ready.fresh h in
      record { context = ready.context; clean = refl; keyed = k; fresh = f }

  -- From a state where the tenant's context is set, nothing is pending, the index on active
  -- identifiers and the primary key of persons are unique and the UUIDs still to be drawn are
  -- unused, a creation leads to such a state again, whether it inserts the person or raises a
  -- possible duplicate.
  pub create-IsReady : IsReady env tenant_id (create env tenant_id new w).1
  create-IsReady =
      subst (λ r. IsReady env tenant_id r.1)
        (sym (create-eq env new tenant_id w ready.context ready.keyed))
        (guarded-IsReady (is_hit (guard_result env new tenant_id w).action) refl)

module _ (env : Environment) (tenant_id : Uuid) (new : NewPerson) (w : World)
    (ready : IsReady env tenant_id w)
    (miss : is_hit (guard_result env new tenant_id w).action ≡ false) where
  abbrev second : World
  second = after_insert env new tenant_id w

  abbrev first_person : Person
  first_person = inserted env new tenant_id w

  abbrev duplicate : MatchResult
  duplicate = guard_result env new tenant_id second

  abbrev NamesFirst : Type 0
  NamesFirst =
      (is_hit duplicate.action ≡ true) × (duplicate.person_uuid ≡ some first_person.person_uuid)

  abbrev frees :
      (IsFree w.stored.identifiers tenant_id IdentifierType.emirates_id (present new.emirates_id))
      × IsFree w.stored.identifiers tenant_id IdentifierType.passport (present new.passport_number)
  frees =
      let (e, p) =
        decide-miss w.stored tenant_id new.emirates_id new.passport_number new.nationality
          new.date_of_birth miss in
      (active-free w.stored tenant_id _ _ e, active-free w.stored tenant_id _ _ p)

  abbrev with_passport : List PersonIdentifier
  with_passport =
      w.stored.identifiers
      ++ passport_rows tenant_id first_person.person_uuid new (present new.passport_number)

  found_emirates_id : (e : Text) → present new.emirates_id ≡ some e → NamesFirst
  found_emirates_id e h =
      decide-emirates_id second.stored tenant_id new.emirates_id new.passport_number new.nationality
        new.date_of_birth (emirates_id_row tenant_id first_person.person_uuid e)
        (active-added second.stored with_passport
          (emirates_id_row tenant_id first_person.person_uuid e) (present new.emirates_id)
          (identifiers_after env new tenant_id w ready.clean
            ∙ ap (λ o. with_passport ++ emirates_id_rows tenant_id first_person.person_uuid o) h)
          h
          ((with_passport-HasKeys tenant_id first_person.person_uuid new w.stored.identifiers
              (present new.passport_number) (present new.emirates_id) ready.keyed.identifiers
              frees.1 frees.0).1
            e h)
          refl)

  found_passport :
      (p : Text)
      → present new.emirates_id ≡ none
      → present new.passport_number ≡ some p
      → NamesFirst
  found_passport p h k =
      decide-passport second.stored tenant_id new.emirates_id new.passport_number new.nationality
        new.date_of_birth (passport_row tenant_id first_person.person_uuid new p)
        (ap (active second.stored tenant_id IdentifierType.emirates_id) h)
        (active-added second.stored w.stored.identifiers
          (passport_row tenant_id first_person.person_uuid new p) (present new.passport_number)
          (identifiers_after env new tenant_id w ready.clean
            ∙ ap₂
                (λ o o'.
                  (w.stored.identifiers ++ passport_rows tenant_id first_person.person_uuid new o)
                  ++ emirates_id_rows tenant_id first_person.person_uuid o')
                k h
            ∙ append-nil _)
          k (frees.1 p k) refl)

  finds_first :
      (is_some (present new.passport_number) || is_some (present new.emirates_id)) ≡ true
      → NamesFirst
  finds_first some_number = elim (Option-cases (present new.emirates_id)) [
    | inr (e, h) ↦ found_emirates_id e h
    | inl h ↦ elim (Option-cases (present new.passport_number)) [
      | inr (p, k) ↦ found_passport p h k
      | inl k ↦ absurd (false≢true (sym (ap₂ (λ o o'. is_some o || is_some o') k h) ∙ some_number))
    ]
  ]

  module _ (v : World) (context : v.tenant_id ≡ some tenant_id)
      (next : v.stored ≡ second.stored) where
    abbrev verdict : MatchResult
    verdict = guard_result env new tenant_id v

    same_verdict : verdict ≡ duplicate
    same_verdict =
        ap
          (λ t.
            decide t tenant_id new.emirates_id new.passport_number new.nationality
              new.date_of_birth)
          next

    IsKeyed-next : IsKeyed v.stored
    IsKeyed-next =
        subst IsKeyed (sym next) (guarded-IsReady env tenant_id new w ready false miss).keyed

    -- From a state where the tenant's context is set, nothing is pending, the rows are keyed and
    -- the UUIDs still to be drawn are unused: unless the matcher has a hit, a creation inserts the
    -- person; and if it gives a passport number or an Emirates ID, the same creation, in any later
    -- state of the tenant with the same stored rows, raises a possible duplicate that names that
    -- person, and changes nothing.
    pub create-twice :
        (is_some (present new.passport_number) || is_some (present new.emirates_id)) ≡ true
        → (create env tenant_id new w ≡ (ok first_person, second))
          × (verdict.person_uuid ≡ some first_person.person_uuid)
          × (create env tenant_id new v ≡ (err (possible_duplicate verdict), v))
    create-twice some_number =
        let (hit, named) = finds_first some_number in
        (
          create-eq env new tenant_id w ready.context ready.keyed
              ∙ ap (guarded env new tenant_id w) miss,
          ap (λ m. m.person_uuid) same_verdict ∙ named,
          create-eq env new tenant_id v context IsKeyed-next
              ∙ ap (guarded env new tenant_id v) (ap (λ m. is_hit m.action) same_verdict ∙ hit),
        )
