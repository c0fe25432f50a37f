-- ===== src/Api/Persons.antt =====
-- src/hawiya/api/persons.py: the routes that read and create a person. The checks of the request schema
-- are the framework's.
pub mod Schema
pub mod Reply
pub mod Search
pub mod Fetch
pub mod Lookup
pub mod Lengths
pub mod Fitting
use hawiya_ai.Prelude.{Option, none, some, List, [], ◌∷◌, ℕ}
use hawiya_ai.Text.{Text, text}
use hawiya_ai.Models.{Uuid, Person}
use hawiya_ai.Database.Environment.{Environment}
use hawiya_ai.Database.World.{
  Action, Failure, extraction_error, possible_duplicate, multiple_results, missing_tenant,
  cross_tenant, pure, ◌>>=◌,
}
use hawiya_ai.Services.Base.{require_tenant_id}
use hawiya_ai.Services.Person
use hawiya_ai.Services.Person.{NewPerson, create}
use hawiya_ai.Api.Persons.Reply.{PersonResponse, serialised}
use hawiya_ai.Api.Types.{Response, reply, Detail, word, id, confidence, refuse, try}

abbrev pub found_or_404 : Option Person → Action (Response PersonResponse)
found_or_404 none = refuse (text "NOT_FOUND") 404 []
found_or_404 (some person) = serialised (reply person)

unfoldable pub get_person : Uuid → Action (Response PersonResponse)
get_person person_uuid = do
  tenant_id ← require_tenant_id
  person ← Person.get tenant_id person_uuid
  found_or_404 person

-- The `except` clause of `create_person`.
unfoldable pub create_handlers : Failure → Option (Text × ℕ × List (Text × Detail))
create_handlers (possible_duplicate m) = some (
  text "POSSIBLE_DUPLICATE",
  409,
  (text "candidate_person_uuid", id m.person_uuid)
      ∷ (text "method", word m.method)
      ∷ (text "confidence", confidence m.confidence)
      ∷ [],
)
create_handlers (extraction_error e) = none
create_handlers multiple_results = none
create_handlers missing_tenant = none
create_handlers cross_tenant = none

unfoldable pub create_person : Environment → NewPerson → Action (Response PersonResponse)
create_person env body = do
  tenant_id ← require_tenant_id
  answer ← try create_handlers (create env tenant_id body)
  serialised answer
