-- ===== src/Api/Steps.antt =====
-- The routes of src/hawiya/api, each as a step of its tenant between two states of the database.
use hawiya_ai.Prelude.{
  ℕ, ◌≤◌, refl, Bool, true, false, Option, none, some, List, [], ◌∷◌, Result, ok, err, length, ltb,
  is_empty, if◌then◌else◌,
}
use hawiya_ai.Text.{Text, text}
use hawiya_ai.Models.{Uuid, Person, PersonIdentifier}
use hawiya_ai.Extractors.Classifier.{Bytes}
use hawiya_ai.Database.Environment.{Environment}
use hawiya_ai.Database.World.{World, Failure, Action, continue}
use hawiya_ai.Database.Search.{Postgres}
use hawiya_ai.Database.Growth.{IsGrown, same-IsGrown}
use hawiya_ai.Database.Frame.{same-IsFramed, bind-Frames}
use hawiya_ai.Database.Steps.{IsOpen, IsStep, later-IsFresh, framed-IsStep, open-IsStep}
use hawiya_ai.Services.Base.{require_tenant_id}
use hawiya_ai.Services.Extraction.{ExtractionResult, extract}
use hawiya_ai.Services.Extraction.Frame.{extract-Frames}
use hawiya_ai.Services.Identity.{ResolveResult, resolve}
use hawiya_ai.Services.Identity.Keys.{resolve-IsStep}
use hawiya_ai.Services.Person
use hawiya_ai.Services.Person.{NewPerson, create}
use hawiya_ai.Services.Person.Search.{search}
use hawiya_ai.Services.Person.Steps.{create-IsStep, get-Frames, search-Frames}
use hawiya_ai.Api.Types.{
  Response, reply, error, Detail, number, refuse, Database, begin, end, answer, transaction,
  extraction_handlers,
}
use hawiya_ai.Api.Conflict.{IsSound}
use hawiya_ai.Api.Documents.{
  extract_document, checked_upload, content_type_or_default, max_payload_bytes,
}
use hawiya_ai.Api.Identity.{resolve_identity}
use hawiya_ai.Api.Persons
use hawiya_ai.Api.Persons.{create_handlers, create_person, found_or_404}
use hawiya_ai.Api.Persons.Reply.{serialised}
use hawiya_ai.Api.Persons.Search.{PersonSearchRequest, search_persons}

-- Between two states of the database: only the tenant's persons and identifiers are appended, the
-- keys hold, and the UUIDs still to be drawn are unused.
pub record IsTransition (env : Environment) (tenant_id : Uuid) (db after : Database) : Type 0 where
  pub sound : IsSound env after
  pub persons :
      IsGrown (λ (row : Person). row.tenant_id) tenant_id db.tables.persons after.tables.persons
  pub identifiers :
      IsGrown
        (λ (row : PersonIdentifier). row.tenant_id)
        tenant_id
        db.tables.identifiers
        after.tables.identifiers
  pub drawn : db.drawn ≤ after.drawn

module _ (A : Type 0) (P : World → Type 0) where
  abbrev handled :
      Failure
      → World
      → Option (Text × ℕ × List (Text × Detail))
      → Result Failure (Response A) × World
  handled e w o = elim o [
    | none ↦ (err e, w)
    | some (code, status_code, details) ↦ refuse code status_code details w
  ]

  handled-keeps :
      (e : Failure) (w : World) (o : Option (Text × ℕ × List (Text × Detail)))
      → P w
      → P (handled e w o).1
  handled-keeps e w none h = h
  handled-keeps e w (some (code, status_code, details)) h = h

  -- What an answer is made of changes nothing.
  answer-keeps :
      (handlers : Failure → Option (Text × ℕ × List (Text × Detail))) (r : Result Failure A × World)
      → P r.1
      → P (answer handlers r).1
  answer-keeps handlers (ok a, w) h = h
  answer-keeps handlers (err e, w) h = handled-keeps e w (handlers e) h

serialised-keeps :
    (P : World → Type 0) (r : Result Failure (Response Person) × World)
    → P r.1
    → P (continue serialised r).1
serialised-keeps P (ok (reply person), w) h = h
serialised-keeps P (ok (error e), w) h = h
serialised-keeps P (err e, w) h = h

found-keeps :
    (P : World → Type 0) (r : Result Failure (Option Person) × World)
    → P r.1
    → P (continue found_or_404 r).1
found-keeps P (ok none, w) h = h
found-keeps P (ok (some person), w) h = h
found-keeps P (err e, w) h = h

module _ {A : Type 0} (payload : Bytes) (accept : Action (Response A)) (P : World → Type 0)
    (w : World) where
  checked :
      (empty large : Bool)
      → P w
      → P (accept w).1
      → P
          ((if empty
              then refuse (text "EMPTY_UPLOAD") 400 []
              else if large
              then refuse
                  (text "PAYLOAD_TOO_LARGE")
                  413
                  ((text "size_bytes", number (length payload)) ∷ [])
              else accept)
            w).1
  checked true large h k = h
  checked false true h k = h
  checked false false h k = k

  checked_upload-keeps : P w → P (accept w).1 → P (checked_upload payload accept w).1
  checked_upload-keeps = checked (is_empty payload) (ltb max_payload_bytes (length payload))

module _ (env : Environment) (tenant_id : Uuid) (request_id : Option Text) (db : Database)
    (sound : IsSound env db) where
  abbrev start : World
  start = begin (some tenant_id) request_id db

  start-IsOpen : IsOpen env start
  start-IsOpen = record {
    no_persons = refl;
    no_identifiers = refl;
    keyed = sound.keyed;
    fresh = sound.fresh;
  }

  end-IsTransition :
      {A : Type 0} (r : Result Failure (Response A) × World)
      → IsStep env tenant_id start r.1
      → IsTransition env tenant_id db (end db r).1
  end-IsTransition (ok response, w) step = record {
    sound = record { keyed = step.keyed; fresh = step.fresh };
    persons = step.persons;
    identifiers = step.identifiers;
    drawn = step.drawn;
  }
  end-IsTransition (err e, w) step = record {
    sound = record {
      keyed = sound.keyed;
      fresh = later-IsFresh env db.drawn w.drawn db.tables db.tables step.drawn refl sound.fresh;
    };
    persons = same-IsGrown _ tenant_id db.tables.persons db.tables.persons refl;
    identifiers = same-IsGrown _ tenant_id db.tables.identifiers db.tables.identifiers refl;
    drawn = step.drawn;
  }

  abbrev IsOf : World → Type 0
  IsOf = IsStep env tenant_id start

  module _ (payload : Bytes) (content_type consumer_request_id : Option Text) where
    pub extract_document-IsTransition :
        IsTransition env tenant_id db
          (transaction
            (some tenant_id)
            request_id
            (extract_document env payload content_type consumer_request_id)
            db).1
    unfolding transaction extract_document require_tenant_id
    extract_document-IsTransition = end-IsTransition _ (
        checked_upload-keeps payload _ IsOf start (open-IsStep env tenant_id start start-IsOpen) (
          answer-keeps ExtractionResult IsOf extraction_handlers
            (extract env tenant_id payload (content_type_or_default content_type)
              consumer_request_id start)
            (framed-IsStep env tenant_id start _ start-IsOpen (
              extract-Frames env payload (content_type_or_default content_type) consumer_request_id
                tenant_id start))))

    pub resolve_identity-IsTransition :
        (create_if_missing : Bool)
        → IsTransition env tenant_id db
            (transaction
              (some tenant_id)
              request_id
              (resolve_identity env payload content_type consumer_request_id create_if_missing)
              db).1
    unfolding transaction resolve_identity require_tenant_id
    resolve_identity-IsTransition create_if_missing = end-IsTransition _ (
        checked_upload-keeps payload _ IsOf start (open-IsStep env tenant_id start start-IsOpen) (
          answer-keeps ResolveResult IsOf extraction_handlers
            (resolve env tenant_id payload (content_type_or_default content_type)
              consumer_request_id create_if_missing start)
            (resolve-IsStep env tenant_id payload (content_type_or_default content_type)
              consumer_request_id create_if_missing start refl start-IsOpen)))

  pub create_person-IsTransition :
      (body : NewPerson)
      → IsTransition env tenant_id db
          (transaction (some tenant_id) request_id (create_person env body) db).1
  unfolding transaction create_person require_tenant_id
  create_person-IsTransition body = end-IsTransition _ (
      serialised-keeps IsOf (answer create_handlers (create env tenant_id body start)) (
        answer-keeps Person IsOf create_handlers (create env tenant_id body start)
          (create-IsStep env tenant_id body start refl refl sound.keyed sound.fresh)))

  pub get_person-IsTransition :
      (person_uuid : Uuid)
      → IsTransition env tenant_id db
          (transaction (some tenant_id) request_id (Persons.get_person person_uuid) db).1
  unfolding transaction Persons.get_person require_tenant_id
  get_person-IsTransition person_uuid = end-IsTransition _ (
      found-keeps IsOf (Person.get tenant_id person_uuid start)
        (framed-IsStep env tenant_id start _ start-IsOpen (get-Frames tenant_id person_uuid start)))

  pub search_persons-IsTransition :
      (postgres : Postgres) (body : PersonSearchRequest)
      → IsTransition env tenant_id db
          (transaction (some tenant_id) request_id (search_persons postgres body) db).1
  unfolding transaction search_persons require_tenant_id
  search_persons-IsTransition postgres body = end-IsTransition _ (
      framed-IsStep env tenant_id start _ start-IsOpen (
        bind-Frames _ (λ candidates w. same-IsFramed w)
          (search postgres tenant_id body.query body.limit)
          (search-Frames postgres tenant_id body.query body.limit) start))
