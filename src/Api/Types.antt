-- ===== src/Api/Types.antt =====
-- src/hawiya/api/errors.py, and the transaction of `get_session` in src/hawiya/db/session.py. The
-- messages of the error responses are left out.
use hawiya_ai.Prelude.{ℕ, Option, none, some, List, [], Result, ok, err}
use hawiya_ai.Text.{Text, text}
use hawiya_ai.Models.{Uuid, Confidence}
use hawiya_ai.Extractors.Types.{
  mrz_format, value_error, assertion_error, unsupported_document, no_mrz_found, ocr_unavailable,
}
use hawiya_ai.Database.World.{
  World, Tables, no_rows, Action, Failure, extraction_error, pure, gets, ◌>>=◌, commit,
  possible_duplicate, multiple_results, missing_tenant, cross_tenant,
}

pub data Detail : Type 0 where
  number : ℕ → Detail
  word : Text → Detail
  id : Option Uuid → Detail
  confidence : Confidence → Detail

pub record ErrorResponse : Type 0 where
  pub code : Text
  pub status_code : ℕ
  pub details : List (Text × Detail)
  pub trace_id : Text

pub data Response (A : Type 0) : Type 0 where
  reply : A → Response A
  error : ErrorResponse → Response A

-- `current_request_id() or ""`.
abbrev or_empty : Option Text → Text
or_empty none = []
or_empty (some s) = s

unfoldable pub error_response : Text → ℕ → List (Text × Detail) → Option Text → ErrorResponse
error_response code status_code details request_id = record {
  code = code;
  status_code = status_code;
  details = details;
  trace_id = or_empty request_id;
}

-- `return error_response(...)`.
abbrev pub refuse : {A : Type 0} → Text → ℕ → List (Text × Detail) → Action (Response A)
refuse code status_code details = do
  request_id ← gets (λ w. w.request_id)
  pure (error (error_response code status_code details request_id))

-- The `except` clauses of a route: the code, status and details of an answer, if the failure has one.
abbrev pub answer :
    {A : Type 0}
    → (Failure → Option (Text × ℕ × List (Text × Detail)))
    → Result Failure A × World
    → Result Failure (Response A) × World
answer handlers (ok a, w) = (ok (reply a), w)
answer handlers (err e, w) = elim (handlers e) [
  | none ↦ (err e, w)
  | some (code, status_code, details) ↦ refuse code status_code details w
]

abbrev pub try :
    {A : Type 0}
    → (Failure → Option (Text × ℕ × List (Text × Detail)))
    → Action A
    → Action (Response A)
try handlers m w = answer handlers (m w)

-- The `except` clauses that `extract_document` and `resolve_identity` share word for word.
unfoldable pub extraction_handlers : Failure → Option (Text × ℕ × List (Text × Detail))
extraction_handlers (extraction_error unsupported_document) =
    some (text "UNSUPPORTED_DOCUMENT", 415, [])
extraction_handlers (extraction_error (no_mrz_found message)) =
    some (text "DOCUMENT_UNREADABLE", 422, [])
extraction_handlers (extraction_error (mrz_format line size)) =
    some (text "DOCUMENT_UNREADABLE", 422, [])
extraction_handlers (extraction_error (ocr_unavailable message)) =
    some (text "OCR_UNAVAILABLE", 503, [])
extraction_handlers (extraction_error value_error) = none
extraction_handlers (extraction_error assertion_error) = none
extraction_handlers (possible_duplicate m) = none
extraction_handlers multiple_results = none
extraction_handlers missing_tenant = none
extraction_handlers cross_tenant = none

-- What the tables hold and how many UUIDs are drawn, between two requests.
pub record Database : Type 0 where
  pub tables : Tables
  pub drawn : ℕ

-- The state in which a route of a tenant starts, in its own session.
abbrev pub begin : Option Uuid → Option Text → Database → World
begin tenant_id request_id db = record {
  tenant_id = tenant_id;
  request_id = request_id;
  stored = db.tables;
  pending = no_rows;
  drawn = db.drawn;
}

abbrev pub end :
    {A : Type 0} → Database → Result Failure (Response A) × World → Option (Response A) × Database
end db (ok response, w) = (some response, record { tables = commit w; drawn = w.drawn })
end db (err e, w) = (none, record { tables = db.tables; drawn = w.drawn })

-- `get_session` round a route: an answer commits, a raise rolls back and leaves the answer to the
-- server, as does a session without a tenant.
-- No flush and no commit fails here: the constraints of the tables (the lengths of columns, as of
-- `audit_log.request_id`, the foreign keys to the tenants, unique indexes) are not checked. Where a row
-- breaks one, or the connection is lost, the source raises, rolls back and answers 500.
unfoldable pub transaction :
    {A : Type 0}
    → Option Uuid
    → Option Text
    → Action (Response A)
    → Database
    → Option (Response A) × Database
transaction none request_id route db = (none, db)
transaction (some tenant_id) request_id route db =
    end db (route (begin (some tenant_id) request_id db))
