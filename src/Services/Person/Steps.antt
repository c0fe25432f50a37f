-- ===== src/Services/Person/Steps.antt =====
-- `PersonService.create` of src/hawiya/services/person_service.py as a step of its tenant.
use hawiya_ai.Prelude.{
  ◌≡◌, refl, sym, ◌∙◌, ap, Bool, true, false, Option, none, some, List, [], ◌∷◌, arith, ℕ, filter,
  is_empty,
}
use mathlib.Core.Path.{subst}
use mathlib.Core.List.{append_assoc}
use hawiya_ai.Text.{Text}
use hawiya_ai.Text.Strip.{strip}
use hawiya_ai.Models.{Uuid, Person, PersonIdentifier}
use hawiya_ai.Matching.Types.{is_hit}
use hawiya_ai.Database.Environment.{Environment}
use hawiya_ai.Database.World.{World, Tables, no_rows, commit, pure}
use hawiya_ai.Database.Repositories.{present, is_person, get_person}
use hawiya_ai.Database.Growth.{IsOwn, IsOwn-append}
use hawiya_ai.Database.Steps.{both-none, IsOpen, IsStep, open-IsStep}
use hawiya_ai.Database.Keys.{IsKeyed, IsFresh}
use hawiya_ai.Database.Search.{Postgres, query, search_by_name}
use hawiya_ai.Database.Frame.{Frames, same-IsFramed, if-Frames, pure-Frames, scalar-Frames}
use hawiya_ai.Services.Base.Frame.{requires_tenant-Frames}
use hawiya_ai.Services.Person
use hawiya_ai.Services.Person.{NewPerson, create}
use hawiya_ai.Services.Person.Search.{search}
use hawiya_ai.Services.Person.Effect.{
  passport_rows, emirates_id_rows, new_identifiers, inserted, after_insert, guarded, guard_result,
  create-eq,
}
use hawiya_ai.Services.Person.Keys.{identifiers_after, persons_after, inserted-keys}

abbrev owner : PersonIdentifier → Uuid
owner row = row.tenant_id

passport_rows-IsOwn :
    (tenant_id person_uuid : Uuid) (new : NewPerson) (o : Option Text)
    → IsOwn owner tenant_id (passport_rows tenant_id person_uuid new o)
passport_rows-IsOwn tenant_id person_uuid new none = tt
passport_rows-IsOwn tenant_id person_uuid new (some n) = (refl, tt)

emirates_id_rows-IsOwn :
    (tenant_id person_uuid : Uuid) (o : Option Text)
    → IsOwn owner tenant_id (emirates_id_rows tenant_id person_uuid o)
emirates_id_rows-IsOwn tenant_id person_uuid none = tt
emirates_id_rows-IsOwn tenant_id person_uuid (some n) = (refl, tt)

module _ (env : Environment) (tenant_id : Uuid) (new : NewPerson) (w : World)
    (context : w.tenant_id ≡ some tenant_id) (clean : w.pending ≡ no_rows)
    (keyed : IsKeyed w.stored) (fresh : IsFresh env w.drawn w.stored) where
  abbrev person : Person
  person = inserted env new tenant_id w

  abbrev after : World
  after = after_insert env new tenant_id w

  start : IsOpen env w
  start = record {
    no_persons = ap (λ (t : Tables). t.persons) clean;
    no_identifiers = ap (λ (t : Tables). t.identifiers) clean;
    keyed = keyed;
    fresh = fresh;
  }

  committed : commit after ≡ after.stored
  unfolding commit
  committed = both-none after.stored

  inserted-IsStep :
      is_hit (guard_result env new tenant_id w).action ≡ false → IsStep env tenant_id w after
  inserted-IsStep miss =
      let (k, f) = inserted-keys env new tenant_id w clean keyed fresh miss in
      record {
        keyed = subst IsKeyed (sym committed) k;
        fresh = subst (IsFresh env after.drawn) (sym committed) f;
        persons = record {
          rows = person ∷ [];
          appended =
              ap (λ (t : Tables). t.persons) committed ∙ persons_after env new tenant_id w clean;
          own = (refl, tt);
        };
        identifiers = record {
          rows = new_identifiers tenant_id person.person_uuid new;
          appended =
              ap (λ (t : Tables). t.identifiers) committed
              ∙ identifiers_after env new tenant_id w clean
              ∙ append_assoc w.stored.identifiers _ _;
          own =
              IsOwn-append owner tenant_id
                (passport_rows tenant_id person.person_uuid new (present new.passport_number))
                (emirates_id_rows tenant_id person.person_uuid (present new.emirates_id))
                (passport_rows-IsOwn tenant_id person.person_uuid new _)
                (emirates_id_rows-IsOwn tenant_id person.person_uuid _);
        };
        drawn = omega arith;
      }

  guarded-IsStep :
      (hit : Bool)
      → is_hit (guard_result env new tenant_id w).action ≡ hit
      → IsStep env tenant_id w (guarded env new tenant_id w hit).1
  guarded-IsStep true h = open-IsStep env tenant_id w start
  guarded-IsStep false h = inserted-IsStep h

  -- From tables in order, with nothing pending, in the context of its tenant, a creation is a step
  -- of the tenant, whether it inserts the person or raises a possible duplicate.
  pub create-IsStep : IsStep env tenant_id w (create env tenant_id new w).1
  create-IsStep =
      subst (λ r. IsStep env tenant_id w r.1) (sym (create-eq env new tenant_id w context keyed))
        (guarded-IsStep (is_hit (guard_result env new tenant_id w).action) refl)

pub get-Frames : (tenant_id person_uuid : Uuid) → Frames (Person.get tenant_id person_uuid)
unfolding Person.get get_person
get-Frames tenant_id person_uuid =
    requires_tenant-Frames (λ t. get_person t person_uuid) tenant_id
      λ t w. scalar-Frames (filter (is_person t person_uuid) w.stored.persons) w

pub search-Frames :
    (postgres : Postgres) (tenant_id : Uuid) (text : Text) (limit : ℕ)
    → Frames (search postgres tenant_id text limit)
unfolding search search_by_name
search-Frames postgres tenant_id text limit =
    requires_tenant-Frames (λ t. search_by_name postgres t text limit) tenant_id
      λ t.
        if-Frames (is_empty (strip text)) (pure []) (query postgres t (strip text) limit)
          (pure-Frames {A = List Person} []) (λ w. same-IsFramed w)
