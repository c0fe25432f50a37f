-- ===== src/Api/Persons/Search.antt =====
-- The search route of src/hawiya/api/persons.py. A UUID stands for its text.
use hawiya_ai.Prelude.{
  ℕ, ◌≤◌, ◌≡◌, ◌⊎◌, refl, ◌∙◌, ap, Bool, true, false, ◌&&◌, Option, none, some, List, [], map,
  length, leb, if◌then◌else◌, is_empty, arith, ok, inl, inr,
}
use hawiya_ai.Text.{Text}
use hawiya_ai.Text.Strip.{strip}
use hawiya_ai.Models.{Uuid, Person}
use hawiya_ai.Database.World.{Tables, Action, pure, ◌>>=◌, continue, commit}
use hawiya_ai.Database.Search.{Postgres}
use hawiya_ai.Database.Search.Ranked.{IsBest}
use hawiya_ai.Services.Base.{require_tenant_id}
use hawiya_ai.Services.Person.Search.{search, search-blank, search-IsBest}
use hawiya_ai.Api.Types.{Response, reply, Database, begin, end, transaction}
use hawiya_ai.Api.Persons.Reply.{iso_or_none}
use hawiya_ai.Database.Steps.{both-none}

abbrev pub search_default_limit : ℕ
search_default_limit = 10

abbrev pub search_max_limit : ℕ
search_max_limit = 50

pub record PersonSearchRequest : Type 0 where
  pub query : Text
  pub limit : ℕ

abbrev or_default : Option ℕ → ℕ
or_default none = search_default_limit
or_default (some limit) = limit

-- The constraints of the fields; the framework answers for a body that breaks one.
unfoldable pub is_accepted : Text → ℕ → Bool
is_accepted query limit =
    (leb 1 (length query) && leb (length query) 255) && (leb 1 limit && leb limit search_max_limit)

unfoldable pub search_request : Text → Option ℕ → Option PersonSearchRequest
search_request query limit =
    if is_accepted query (or_default limit)
    then some (record { query = query; limit = or_default limit })
    else none

pub record PersonSummary : Type 0 where
  pub person_uuid : Uuid
  pub canonical_name_ar : Option Text
  pub canonical_name_en : Option Text
  pub date_of_birth : Option Text
  pub nationality : Option Text

-- `_to_summary`.
unfoldable pub to_summary : Person → PersonSummary
to_summary person = record {
  person_uuid = person.person_uuid;
  canonical_name_ar = person.canonical_name_ar;
  canonical_name_en = person.canonical_name_en;
  date_of_birth = iso_or_none person.date_of_birth;
  nationality = person.nationality;
}

module _ (postgres : Postgres) where
  unfoldable pub search_persons : PersonSearchRequest → Action (Response (List PersonSummary))
  search_persons body = do
    tenant_id ← require_tenant_id
    candidates ← search postgres tenant_id body.query body.limit
    pure (reply (map to_summary candidates))

  module _ (tenant_id : Uuid) (request_id : Option Text) (body : PersonSearchRequest)
      (db : Database) where
    abbrev pub answered : Option (Response (List PersonSummary)) × Database
    answered = transaction (some tenant_id) request_id (search_persons body) db

    -- The route, by what the service answers.
    answered-found :
        (found : List Person)
        → search postgres tenant_id body.query body.limit (begin (some tenant_id) request_id db)
          ≡ (ok found, begin (some tenant_id) request_id db)
        → answered ≡ (some (reply (map to_summary found)), db)
    unfolding transaction search_persons require_tenant_id commit
    answered-found found e =
        ap (λ r. end db (continue (λ candidates. pure (reply (map to_summary candidates))) r)) e
        ∙ ap
            (λ (t : Tables).
              (some (reply (map to_summary found)), record { tables = t; drawn = db.drawn }))
            (both-none db.tables)

    -- What an accepted request searches for.
    abbrev pub FindsBest : List Person → Type 0
    FindsBest best =
        ((is_empty (strip body.query) ≡ true) × (best ≡ []))
        ⊎ ((is_empty (strip body.query) ≡ false)
            × IsBest postgres tenant_id (strip body.query) body.limit db.tables.persons best)

    search-FindsBest :
        (blank : Bool)
        → is_empty (strip body.query) ≡ blank
        → (best : List Person) × (search postgres tenant_id body.query body.limit
              (begin (some tenant_id) request_id db)
            ≡ (ok best, begin (some tenant_id) request_id db))
          × FindsBest best
    search-FindsBest true e =
        ([], search-blank postgres tenant_id body.query body.limit _ refl e, inl (e, refl))
    search-FindsBest false e =
        let (best, answers, is) =
          search-IsBest postgres tenant_id body.query body.limit
            (begin (some tenant_id) request_id db) refl e in
        (best, answers, inr (e, is))

    accepted-limit :
        (text : Text) (limit : Option ℕ)
        → search_request text limit ≡ some body
        → body.limit ≤ search_max_limit
    unfolding search_request is_accepted
    accepted-limit text limit h = ground arith

    found-length : (best : List Person) → FindsBest best → length best ≤ body.limit
    found-length best (inl (_, none_found)) = rw none_found (omega arith)
    found-length best (inr (_, is)) = omega (arith, is.count)

    -- A request that the schema accepts is answered with the summaries of at most 50 persons, and the
    -- database stays as it is. A query of white space finds nobody. Any other finds the best of those
    -- wanted: the active persons of the tenant of whom the Arabic or the English name has a similarity
    -- above 0.3 to the stripped query. They are found by falling similarity of the closer name, each as
    -- often as there is a row, up to the limit of the request; who is wanted and is not found is one of
    -- those behind the limit, and no closer than anybody found.
    pub search_persons-FindsBest :
        (text : Text) (limit : Option ℕ)
        → search_request text limit ≡ some body
        → (best : List Person) × (answered ≡ (some (reply (map to_summary best)), db))
          × (length best ≤ search_max_limit)
          × FindsBest best
    search_persons-FindsBest text limit h =
        let (best, answers, is) = search-FindsBest (is_empty (strip body.query)) refl in
        let few : length best ≤ body.limit = found-length best is in
        let most : body.limit ≤ search_max_limit = accepted-limit text limit h in
        (best, answered-found best answers, omega (arith, few, most), is)
