-- ===== src/Services/Person/Keys.antt =====
-- `PersonService.create` and the keys of the tables.
use hawiya_ai.Prelude.{
  ℕ, ◌≤◌, ◌≡◌, ◌≢◌, refl, sym, ◌∙◌, ap, false, Option, none, some, List, [], ◌∷◌, ◌++◌, arith,
  filter, length,
}
use mathlib.Core.Path.{subst}
use mathlib.Core.List.{append-nil, append_assoc}
use hawiya_ai.Text.{Text}
use hawiya_ai.Models.{Uuid, Person, PersonIdentifier, IdentifierType}
use hawiya_ai.Matching.Types.{is_hit}
use hawiya_ai.Matching.Soundness.{decide-miss, active-free}
use hawiya_ai.Database.Environment.{Environment}
use hawiya_ai.Database.World.{World, Tables, no_rows, both}
use hawiya_ai.Database.Keys.{
  IsKeyed, IsFresh, HasKeys, identifiers-add, free-add, persons-add, unused-add,
}
use hawiya_ai.Database.Repositories.{present, is_active_as, is_person}
use hawiya_ai.Services.Person.{NewPerson, passport_row, emirates_id_row}
use hawiya_ai.Services.Person.Effect.{
  passport_rows, emirates_id_rows, new_identifiers, inserted, after_insert, guard_result,
}

-- A value that no active identifier has.
abbrev pub IsFree : List PersonIdentifier → Uuid → IdentifierType → Option Text → Type 0
IsFree rows tenant_id ty value =
    (v : Text) → value ≡ some v → filter (is_active_as tenant_id ty v) rows ≡ []

passport≢emirates_id : IdentifierType.passport ≢ IdentifierType.emirates_id
passport≢emirates_id h = ground arith

module _ (tenant_id person_uuid : Uuid) (new : NewPerson) (rows : List PersonIdentifier) where
  pub with_passport-HasKeys :
      (passport_number emirates_id : Option Text)
      → HasKeys rows
      → IsFree rows tenant_id IdentifierType.passport passport_number
      → IsFree rows tenant_id IdentifierType.emirates_id emirates_id
      → HasKeys (rows ++ passport_rows tenant_id person_uuid new passport_number)
        × IsFree
            (rows ++ passport_rows tenant_id person_uuid new passport_number)
            tenant_id
            IdentifierType.emirates_id
            emirates_id
  with_passport-HasKeys none e keys _ free =
      subst (λ l. HasKeys l × IsFree l tenant_id IdentifierType.emirates_id e)
        (sym (append-nil rows)) (keys, free)
  with_passport-HasKeys (some p) e keys free_p free_e = (
    identifiers-add rows (passport_row tenant_id person_uuid new p) keys (free_p p refl),
    λ v h.
        free-add rows (passport_row tenant_id person_uuid new p) tenant_id
          IdentifierType.emirates_id v (free_e v h) passport≢emirates_id,
  )

  pub with_emirates_id-HasKeys :
      (emirates_id : Option Text)
      → HasKeys rows
      → IsFree rows tenant_id IdentifierType.emirates_id emirates_id
      → HasKeys (rows ++ emirates_id_rows tenant_id person_uuid emirates_id)
  with_emirates_id-HasKeys none keys _ = subst HasKeys (sym (append-nil rows)) keys
  with_emirates_id-HasKeys (some e) keys free =
      identifiers-add rows (emirates_id_row tenant_id person_uuid e) keys (free e refl)

module _ (env : Environment) (new : NewPerson) (tenant_id : Uuid) (w : World)
    (clean : w.pending ≡ no_rows) where
  abbrev new_world : World
  new_world = after_insert env new tenant_id w

  abbrev new_person : Person
  new_person = inserted env new tenant_id w

  pub identifiers_after :
      new_world.stored.identifiers
      ≡ (w.stored.identifiers
          ++ passport_rows tenant_id new_person.person_uuid new (present new.passport_number))
        ++ emirates_id_rows tenant_id new_person.person_uuid (present new.emirates_id)
  unfolding both
  identifiers_after =
      ap
        (λ (t : Tables).
          (w.stored.identifiers ++ t.identifiers)
          ++ new_identifiers tenant_id new_person.person_uuid new)
        clean
      ∙ ap (λ l. l ++ new_identifiers tenant_id new_person.person_uuid new)
          (append-nil w.stored.identifiers)
      ∙ sym (append_assoc w.stored.identifiers _ _)

  pub persons_after : new_world.stored.persons ≡ w.stored.persons ++ new_person ∷ []
  unfolding both
  persons_after =
      ap (λ (t : Tables). (w.stored.persons ++ (t.persons ++ new_person ∷ [])) ++ []) clean
      ∙ append-nil _

  -- A person whose numbers are free keeps the keys of the tables.
  pub inserted-keys :
      IsKeyed w.stored
      → IsFresh env w.drawn w.stored
      → is_hit (guard_result env new tenant_id w).action ≡ false
      → IsKeyed new_world.stored × IsFresh env new_world.drawn new_world.stored
  inserted-keys k f miss =
      let (free_e, free_p) =
        decide-miss w.stored tenant_id new.emirates_id new.passport_number new.nationality
          new.date_of_birth miss in
      let (keys, free) =
        with_passport-HasKeys tenant_id new_person.person_uuid new w.stored.identifiers
          (present new.passport_number) (present new.emirates_id) k.identifiers
          (active-free w.stored tenant_id _ _ free_p) (active-free w.stored tenant_id _ _ free_e) in
      let keys' =
        with_emirates_id-HasKeys tenant_id new_person.person_uuid new _ (present new.emirates_id)
          keys free in
      (
        record {
          identifiers = subst HasKeys (sym identifiers_after) keys';
          persons =
              subst (λ (l : List Person). (t u : Uuid) → length (filter (is_person t u) l) ≤ 1)
                (sym persons_after)
                (persons-add env w.drawn w.stored.persons new_person refl f.unused k.persons);
        },
        record {
          unused =
              subst
                (λ (l : List Person).
                  (m : ℕ)
                  → new_world.drawn ≤ m
                  → (t : Uuid) → filter (is_person t (env.uuid4 m)) l ≡ [])
                (sym persons_after)
                (unused-add env w.drawn w.stored.persons new_person refl f.unused);
        },
      )
