-- ===== src/Lib.antt =====
-- Hawiya AI reads the machine readable zone (MRZ) of a passport from an uploaded image, matches it
-- with the persons of a tenant, and writes down every decision in an audit log. This library models
-- the deterministic path of the program and states what it does.
--
-- The parts, and how they are used by one another:
-- * src/hawiya/extractors turns bytes into fields. `classify` sniffs the upload (Extractors.Classifier;
--   Classifier.Formats is about it), the OCR adapter gives two lines, fitted and repaired
--   (Extractors.Ocr, Extractors.Ocr.Adapter, Extractors.Repair), and `parse_td3` reads them and tests
--   the check digits (Extractors.Mrz, Extractors.Validators).
--   Extractors.Readable and Extractors.ParseResult say independently which lines are readable and what
--   stands in them; Repair.Places and Repair.Twice are about the repair, and Extractors.CheckDigit is the
--   arithmetic of the check digits.
-- * scripts/generate_passport_image.py builds MRZ lines (Scripts.PassportImage). Scripts.Td3Layout,
--   Scripts.Names, Scripts.Fields and Scripts.RoundTrip relate the builder and the parser.
-- * src/hawiya/matching finds a known person: `DeterministicMatcher.match` is
--   Matching.Deterministic.match, and Matching.Decision, Matching.Soundness and Matching.Isolation are
--   about it. Matching.ArabicNames and Matching.Phonetic model src/hawiya/matching/arabic_names.py.
-- * src/hawiya/db and src/hawiya/models are Database and Models: the rows, the session and the
--   repositories. Database.Keys states the keys of the tables, Database.Effects and Database.Reads what
--   the repositories leave behind and what they read; Database.Search is `search_by_name`.
--   Database.Policies is the row-level security of src/hawiya/db/migrations, and Database.Columns the
--   lengths of its columns. Database.Frame and
--   Database.Growth say which rows an action may add, Database.Steps what a request may do to the
--   tables, and Database.Registry sees the identifiers as a map from numbers to persons, against which
--   Services.Person.Registry and Services.Identity.Registry specify the services.
-- * src/hawiya/services composes these: `ExtractionService.extract`, `PersonService.get` and
--   `PersonService.create`, and `IdentityService.resolve` are Services.Extraction.extract,
--   Services.Person.get, Services.Person.create and Services.Identity.resolve; `search` is
--   Services.Person.Search. Services.Base has the tenant guard and the audit writer,
--   Extraction.Content and Identity.Reading the fields of a document.
-- * src/hawiya/api is Api: a route runs in a transaction that an answer commits and a raise rolls back.
--   Api.Persons.Reply is the reply of the person routes, Api.Persons.Search the search route, and
--   Api.Persons.Schema is the request of a creation, Api.Persons.Fitting relates it to the columns, and
--   Api.Persons.Lookup is about the fetch of a person. Api.Health has the probes, and
--   Api.Documents.Answers is about how the handler of an upload ends, before the commit. Api.Steps is
--   about each route as a step of the database, and Api.History about sequences of requests from the
--   empty database on.
-- * src/hawiya/tenancy/rate_limit.py is Tenancy.RateLimit: `_Bucket.take` and `RateLimiter.check` are
--   Tenancy.RateLimit.take and Tenancy.RateLimit.check. Its floats are exact numbers: a time counts
--   nanoseconds, and a token is 60 · 10⁹ units, so that no refill is rounded. The source rounds each,
--   and may refuse a caller where the exact bucket holds just one token. Its middleware is
--   Tenancy.RateLimit.Dispatch, and RateLimit.Isolation keeps the keys apart.
-- * src/hawiya/tenancy/idempotency.py is Tenancy.Idempotency: `__call__` is
--   Tenancy.Idempotency.call, from a request, the store and the application's state to an outcome and
--   the new states; Idempotency.Replay and Idempotency.Runs are about one request after the
--   other, and Idempotency.Interleaving, a step relation, about requests that overlap,
--   Interleaving.Overlap about two of them.
-- * src/hawiya/tenancy/middleware.py is Tenancy.Middleware, and Middleware.Guards says what it lets
--   through. Tenancy.Stack composes the middleware in the order in which src/hawiya/main.py adds them;
--   Stack.Calls is about how a request reaches the application, and Stack.Unhandled is the handler of
--   unhandled exceptions. Api.Server puts the routes behind the middleware.
--   Tenancy.Http has requests and answers, and the type of an application; Dict is a dictionary.
--   Tenancy.Context is `TenantContext` of src/hawiya/tenancy/context.py.
-- * src/hawiya/security/pii.py is Security.Pii, over the matchers of Security.Regex; Pii.Short and
--   Pii.Runs are about the texts and Pii.Leaks about the structures that `redact_pii` gives.
--
-- The state of a request is the record `World` of Database.World: the context variables, the rows that
-- a query sees, the rows that were added and are not flushed yet, and how many random UUIDs were
-- drawn. A service is an `Action`, a function from a world to a result and a world: what it added
-- before it raised stays pending, and the transaction decides. A row is a record of the columns that
-- the program sets; what the server fills in, and the keys of rows that nothing refers to, are left
-- out. Texts and bytes are lists of code points and bytes. A confidence is a number of hundredths, and
-- the mean of confidences a sum and a count, so that no rounding enters. A recursion is on the text or
-- on the list of rows, except that printing a number takes fuel, its own value plus one.
--
-- Python's Unicode tables, `uuid.uuid4`, the clock, SHA-256, `str.splitlines` and the OCR backend are
-- not part of the repository: they are fields of `Unicode` and `Environment`, or arguments, with their
-- documented behaviour on ASCII and the distinctness of UUIDs as fields.
--
-- What the middleware takes from Python and Starlette is the record `Platform` of Tenancy.Http, what the
-- redactor takes is `Python` of Security.Pii, what the name search takes from PostgreSQL is
-- `Postgres` of Database.Search, a similarity and an ORDER BY that permutes and sorts, and what the OCR
-- adapter takes from its libraries and the file system is `Backend` of Extractors.Ocr.Adapter. The
-- routing and the parsing of requests and the rendering of answers are `Framework` of Api.Server.
--
-- No flush and no commit of the model fails: the constraints of the tables, which are the lengths of
-- columns (as of request_id in the audit log and consumer_request_id in the extractions), the foreign
-- keys to the tenants and the unique indexes, are not checked. Where a row breaks one, the source raises,
-- rolls back and answers 500. The theorems that follow a creation or a resolution through its flush are
-- about rows that the database takes.
--
-- A request has its transaction to itself: requests that overlap are modelled for the idempotency cache
-- only. Empty tables stand for a new database; the tenants themselves are not rows of the model.
--
-- Not modelled: the other parts of the migrations, logging, metrics and tracing, the configuration, the
-- messages of error responses, the times in the reply of the person routes, the drawing of passport images, and the scripts that drive a running server.
pub mod Prelude
pub mod Text
pub mod Dict
pub mod Date
pub mod Extractors
pub mod Scripts
pub mod Security
pub mod Models
pub mod Matching
pub mod Database
pub mod Services
pub mod Api
pub mod Tenancy
pub mod Tests
