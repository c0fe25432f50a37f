-- ===== src/Api/Conflict.antt =====
-- Two calls of `POST /v1/persons` with the same body.
use hawiya_ai.Prelude.{◌≡◌, refl, ◌∙◌, ap, true, false, ◌||◌, Option, some, [], ◌∷◌, err, is_some}
use hawiya_ai.Text.{Text, text}
use hawiya_ai.Models.{Uuid}
use hawiya_ai.Matching.Types.{MatchResult, is_hit}
use hawiya_ai.Database.Environment.{Environment}
use hawiya_ai.Database.World.{continue, World, Tables, commit, possible_duplicate}
use hawiya_ai.Database.Steps.{both-none}
use hawiya_ai.Database.Keys.{IsKeyed, IsFresh}
use hawiya_ai.Database.Repositories.{present}
use hawiya_ai.Services.Base.{require_tenant_id}
use hawiya_ai.Services.Person.{NewPerson, create}
use hawiya_ai.Services.Person.Effect.{inserted, after_insert, guard_result}
use hawiya_ai.Services.Person.Duplicates.{IsReady, create-twice}
use hawiya_ai.Api.Types.{
  Response, reply, error, ErrorResponse, error_response, id, word, confidence, Database, begin, end,
  answer, transaction,
}
use hawiya_ai.Api.Persons.Reply.{PersonResponse, to_response, serialised}
use hawiya_ai.Api.Persons.{create_handlers, create_person}

-- The answer to a possible duplicate.
abbrev pub conflict : Option Text → MatchResult → ErrorResponse
conflict request_id m =
    error_response (text "POSSIBLE_DUPLICATE") 409
      ((text "candidate_person_uuid", id m.person_uuid)
        ∷ (text "method", word m.method)
        ∷ (text "confidence", confidence m.confidence)
        ∷ [])
      request_id

-- In the tables of a database at rest the keys hold, and the UUIDs to be drawn are unused.
pub record IsSound (env : Environment) (db : Database) : Type 0 where
  pub keyed : IsKeyed db.tables
  pub fresh : IsFresh env db.drawn db.tables

module _ (env : Environment) (tenant_id : Uuid) (body : NewPerson) (db : Database)
    (sound : IsSound env db) (request_id : Option Text) where
  abbrev start : World
  start = begin (some tenant_id) request_id db

  abbrev first : Option (Response PersonResponse) × Database
  first = transaction (some tenant_id) request_id (create_person env body) db

  abbrev later : Option Text → Option (Response PersonResponse) × Database
  later next_id = transaction (some tenant_id) next_id (create_person env body) first.1

  start-IsReady : IsReady env tenant_id start
  start-IsReady = record { context = refl; clean = refl; keyed = sound.keyed; fresh = sound.fresh }

  pub route-eq :
      (rid : Option Text) (d : Database)
      → transaction (some tenant_id) rid (create_person env body) d
        ≡ end d (
            continue serialised
              (answer create_handlers (create env tenant_id body (begin (some tenant_id) rid d))))
  unfolding transaction create_person require_tenant_id
  route-eq rid d = refl

  module _ (miss : is_hit (guard_result env body tenant_id start).action ≡ false)
      (some_number : (is_some (present body.passport_number) || is_some (present body.emirates_id))
        ≡ true) where
    first-eq : first ≡ (
      some (
          reply (
            to_response
              (after_insert env body tenant_id start).stored
              (inserted env body tenant_id start))),
      record {
        tables = (after_insert env body tenant_id start).stored;
        drawn = (after_insert env body tenant_id start).drawn;
      },
    )
    unfolding commit
    first-eq =
        route-eq request_id db
        ∙ ap (λ r. end db (continue serialised (answer create_handlers r)))
            (create-twice env tenant_id body start start-IsReady miss
              (after_insert env body tenant_id start) refl refl some_number).0
        ∙ ap
            (λ (t : Tables). (
              some (
                  reply (
                    to_response (after_insert env body tenant_id start).stored
                      (inserted env body tenant_id start))),
              record { tables = t; drawn = (after_insert env body tenant_id start).drawn },
            ))
            (both-none (after_insert env body tenant_id start).stored)

    module _ (next_id : Option Text) where
      abbrev next_start : World
      next_start = begin (some tenant_id) next_id first.1

      abbrev verdict : MatchResult
      verdict = guard_result env body tenant_id next_start

      later-eq :
          create env tenant_id body next_start ≡ (err (possible_duplicate verdict), next_start)
          → later next_id ≡ (some (error (conflict next_id verdict)), first.1)
      unfolding commit create_handlers
      later-eq h =
          route-eq next_id first.1
          ∙ ap (λ r. end first.1 (continue serialised (answer create_handlers r))) h
          ∙ ap
              (λ (t : Tables). (
                some (error (conflict next_id verdict)),
                record { tables = t; drawn = first.1.drawn },
              ))
              (both-none first.1.tables)

      -- In a database whose rows are keyed and whose UUIDs still to be drawn are unused: if the
      -- matcher has no hit for a body with a passport number or an Emirates ID, the call replies
      -- with a new person; the same call, run next under any request id, is answered by a 409 that
      -- names this person, and leaves the database as it is.
      pub create_person-conflict :
          (p : PersonResponse) × (m : MatchResult) × (first.0 ≡ some (reply p))
          × (later next_id ≡ (some (error (conflict next_id m)), first.1))
          × (m.person_uuid ≡ some p.person_uuid)
      unfolding to_response
      create_person-conflict =
          let (_, named, again) =
            create-twice env tenant_id body start start-IsReady miss next_start refl
              (ap (λ r. r.1.tables) first-eq) some_number in
          (_, verdict, ap (λ r. r.0) first-eq, later-eq again, named)
