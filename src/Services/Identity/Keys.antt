-- ===== src/Services/Identity/Keys.antt =====
-- `IdentityService.resolve` of src/hawiya/services/identity_service.py and the keys of the tables.
use hawiya_ai.Prelude.{
  ℕ, ◌+◌, ◌≤◌, ◌≡◌, refl, sym, ◌∙◌, ap, Bool, true, false, ◌&&◌, Option, none, some, List, [], ◌∷◌,
  ◌++◌, Result, ok, err, arith, filter, length,
}
use mathlib.Core.Path.{subst}
use mathlib.Core.List.{append-nil}
use hawiya_ai.Text.{Text}
use hawiya_ai.Models.{Uuid, Person, PersonIdentifier, IdentifierType}
use hawiya_ai.Extractors.Classifier.{Bytes}
use hawiya_ai.Matching.Soundness.{decide-miss, active-free}
use hawiya_ai.Database.Environment.{Environment}
use hawiya_ai.Database.World.{World, Failure, continue, both, commit}
use hawiya_ai.Database.Keys.{HasKeys, identifiers-add, persons-add, unused-add}
use hawiya_ai.Database.Repositories.{present, is_active_as, is_person}
use hawiya_ai.Database.Growth.{IsOwn, same-IsGrown}
use hawiya_ai.Database.Frame.{IsFramed}
use hawiya_ai.Database.Steps.{
  IsOpen, IsStep, committed-persons, committed-identifiers, same-IsKeyed, later-IsFresh,
  framed-IsOpen, after-IsStep, framed-IsStep,
}
use hawiya_ai.Services.Base.Tenancy.{requires_tenant-own}
use hawiya_ai.Services.Extraction.{ExtractionResult, extract}
use hawiya_ai.Services.Extraction.Frame.{extract-Frames}
use hawiya_ai.Services.Identity.{is_miss, passport_row, resolve_extraction, resolve_body, resolve}
use hawiya_ai.Services.Identity.Effect.{
  document_number, nationality, date_of_birth, match_result, new_person, passport_rows, resolved,
  resolve_extraction-eq,
}
use hawiya_ai.Services.Identity.Verdicts.{miss-hit}

module _ (env : Environment) (tenant_id : Uuid) (input_hash : Text) (x : ExtractionResult)
    (w : World) (start : IsOpen env w) where
  abbrev person : Person
  person = new_person env tenant_id input_hash x w

  abbrev rows : Option Text → List PersonIdentifier
  rows = passport_rows env tenant_id input_hash x w

  abbrev after : Bool → World
  after b = (resolved env tenant_id input_hash x w b).1

  rows-HasKeys :
      (number : Option Text)
      → ((v : Text)
          → number ≡ some v
          → filter (is_active_as tenant_id IdentifierType.passport v) w.stored.identifiers ≡ [])
      → HasKeys (w.stored.identifiers ++ rows number)
  unfolding passport_row
  rows-HasKeys none free = subst HasKeys (sym (append-nil _)) start.keyed.identifiers
  rows-HasKeys (some n) free =
      identifiers-add w.stored.identifiers _ start.keyed.identifiers (free n refl)

  rows-IsOwn :
      (number : Option Text)
      → IsOwn (λ (row : PersonIdentifier). row.tenant_id) tenant_id (rows number)
  unfolding passport_row
  rows-IsOwn none = tt
  rows-IsOwn (some n) = (refl, tt)

  pub identifiers_after :
      (commit (after true)).identifiers
      ≡ w.stored.identifiers ++ rows (present (document_number env tenant_id input_hash x w))
  unfolding commit both
  identifiers_after =
      ap
        (λ l.
          (w.stored.identifiers ++ l)
          ++ rows (present (document_number env tenant_id input_hash x w)))
        start.no_identifiers
      ∙ ap (λ l. l ++ rows (present (document_number env tenant_id input_hash x w)))
          (append-nil w.stored.identifiers)

  pub persons_after : (commit (after true)).persons ≡ w.stored.persons ++ person ∷ []
  unfolding commit both
  persons_after =
      ap (λ l. (w.stored.persons ++ (l ++ person ∷ [])) ++ []) start.no_persons ∙ append-nil _

  pub created-IsStep :
      is_miss (match_result env tenant_id input_hash x w).action ≡ true
      → IsStep env tenant_id w (after true)
  created-IsStep miss = record {
    keyed = record {
      identifiers = subst HasKeys (sym identifiers_after) (
          rows-HasKeys (present (document_number env tenant_id input_hash x w)) (
            active-free w.stored tenant_id IdentifierType.passport
              (present (document_number env tenant_id input_hash x w))
              (decide-miss w.stored tenant_id none (document_number env tenant_id input_hash x w)
                (nationality env tenant_id input_hash x w)
                (date_of_birth env tenant_id input_hash x w) (miss-hit _ miss)).1));
      persons =
          subst (λ (l : List Person). (t u : Uuid) → length (filter (is_person t u) l) ≤ 1)
            (sym persons_after)
            (persons-add env w.drawn w.stored.persons person refl start.fresh.unused
              start.keyed.persons);
    };
    fresh = record {
      unused =
          subst
            (λ (l : List Person).
              (m : ℕ) → w.drawn + 1 ≤ m → (t : Uuid) → filter (is_person t (env.uuid4 m)) l ≡ [])
            (sym persons_after)
            (unused-add env w.drawn w.stored.persons person refl start.fresh.unused);
    };
    persons = record { rows = person ∷ []; appended = persons_after; own = (refl, tt) };
    identifiers = record {
      rows = rows (present (document_number env tenant_id input_hash x w));
      appended = identifiers_after;
      own = rows-IsOwn (present (document_number env tenant_id input_hash x w));
    };
    drawn = omega arith;
  }

  matched-IsStep : IsStep env tenant_id w (after false)
  unfolding commit both
  matched-IsStep = record {
    keyed =
        same-IsKeyed w.stored (commit (after false)) (committed-persons env tenant_id w start)
          (committed-identifiers env tenant_id w start) start.keyed;
    fresh =
        later-IsFresh env w.drawn w.drawn w.stored (commit (after false)) (omega arith)
          (committed-persons env tenant_id w start) start.fresh;
    persons = same-IsGrown _ tenant_id _ _ (committed-persons env tenant_id w start);
    identifiers = same-IsGrown _ tenant_id _ _ (committed-identifiers env tenant_id w start);
    drawn = omega arith;
  }

  outcome-IsStep :
      (miss create_if_missing : Bool)
      → is_miss (match_result env tenant_id input_hash x w).action ≡ miss
      → IsStep env tenant_id w (after (miss && create_if_missing))
  outcome-IsStep true true h = created-IsStep h
  outcome-IsStep true false h = matched-IsStep
  outcome-IsStep false create_if_missing h = matched-IsStep

  -- From tables in order, the pipeline behind the extraction is a step of the tenant.
  resolve_extraction-IsStep :
      (create_if_missing : Bool)
      → IsStep env tenant_id w (resolve_extraction env tenant_id input_hash create_if_missing x w).1
  resolve_extraction-IsStep create_if_missing =
      subst (λ r. IsStep env tenant_id w r.1)
        (sym (resolve_extraction-eq env tenant_id input_hash x w start.keyed create_if_missing))
        (outcome-IsStep (is_miss (match_result env tenant_id input_hash x w).action)
          create_if_missing refl)

module _ (env : Environment) (tenant_id : Uuid) (payload : Bytes) (content_type : Text)
    (consumer_request_id : Option Text) (create_if_missing : Bool) (w : World)
    (context : w.tenant_id ≡ some tenant_id) (start : IsOpen env w) where
  abbrev extracted : Result Failure ExtractionResult × World
  extracted = extract env tenant_id payload content_type consumer_request_id w

  abbrev framed : IsFramed w extracted.1
  framed = extract-Frames env payload content_type consumer_request_id tenant_id w

  continued-IsStep :
      (r : Result Failure ExtractionResult × World)
      → IsFramed w r.1
      → IsStep env tenant_id w
          (continue (resolve_extraction env tenant_id (env.sha256 payload) create_if_missing) r).1
  continued-IsStep (ok x, v) f = after-IsStep env tenant_id w v start f _ (
      resolve_extraction-IsStep env tenant_id (env.sha256 payload) x v
        (framed-IsOpen env tenant_id w v start f) create_if_missing)
  continued-IsStep (err e, v) f = framed-IsStep env tenant_id w v start f

  -- From tables in order, in the context of its tenant, a resolution is a step of the tenant.
  pub resolve-IsStep :
      IsStep env tenant_id w
        (resolve env tenant_id payload content_type consumer_request_id create_if_missing w).1
  unfolding resolve resolve_body
  resolve-IsStep =
      subst (λ r. IsStep env tenant_id w r.1)
        (sym (
          requires_tenant-own
            (resolve_body env payload content_type consumer_request_id create_if_missing) tenant_id
            w context))
        (continued-IsStep extracted framed)
