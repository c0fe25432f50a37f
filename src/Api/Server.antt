-- ===== src/Api/Server.antt =====
-- The routes behind the middleware, as `create_app` of src/hawiya/main.py puts them together. The
-- routing, the parsing of a request and the rendering of an answer are the framework's.
pub mod Isolation
use hawiya_ai.Prelude.{ℕ, Option, none, some, List, [], ◌∷◌}
use hawiya_ai.Database.Environment.{Environment}
use hawiya_ai.Database.Search.{Postgres}
use hawiya_ai.Tenancy.Http.{Request, Response, Outcome, answered, raised, App, Platform}
use hawiya_ai.Tenancy.Middleware.{Context}
use hawiya_ai.Tenancy.Stack.{Process, Moment}
use hawiya_ai.Tenancy.Stack.Unhandled.{create_app}
use hawiya_ai.Api.Types.{Database}
use hawiya_ai.Api.History.{Call, Answer, handle}

pub record Framework : Type 0 where
  -- the route of a request with its parsed arguments, if there is one
  pub parse_call : Request → Option Call
  -- the answer to any other request: a probe, an unknown path, or a body that breaks the schema
  pub unmatched : Request → Response
  -- the response that renders a route's answer
  pub render : Answer → Response

module _ (env : Environment) (postgres : Postgres) (framework : Framework) where
  open framework use {parse_call, unmatched, render}

  abbrev rendered : Option Answer → Outcome
  rendered none = raised
  rendered (some answer) = answered (render answer)

  abbrev pub dispatched :
      Request → Option Call → Context × Database → Outcome × (Context × Database)
  dispatched req none (context, db) = (answered (unmatched req), (context, db))
  dispatched req (some call) (context, db) =
      let r = handle env postgres context.tenant_id context.request_id call db in
      (rendered r.0, (context, r.1))

  -- The included routers.
  unfoldable pub routes : App (Context × Database)
  routes req state = dispatched req (parse_call req) state

  module _ (platform : Platform) (ttl_seconds : ℕ) where
    -- One request to the server.
    abbrev pub serve : Moment → Request → Context × Process Database → Context × Process Database
    serve moment req state = (create_app platform routes ttl_seconds moment req state).1

    -- Requests one behind the other, each with the clock as it meets it.
    unfoldable pub serve_all :
        List (Moment × Request) → Context × Process Database → Context × Process Database
    serve_all [] state = state
    serve_all ((moment, req) ∷ requests) state = serve_all requests (serve moment req state)
