-- ===== src/Tenancy/Stack/Unhandled.antt =====
-- The handler `_unhandled_exception` of `create_app` in src/hawiya/main.py. The framework calls it
-- outside all middleware, for an exception that no route and no middleware has handled.
use hawiya_ai.Prelude.{ℕ, ◌≡◌, refl, ◌∙◌, ap, ◌⊎◌, inl, inr, Option, none, some, [], ◌∷◌}
use hawiya_ai.Text.{Text, text}
use hawiya_ai.Tenancy.Http.{Request, Response, Outcome, answered, raised, App, Platform}
use hawiya_ai.Tenancy.Middleware.{Context}
use hawiya_ai.Tenancy.Middleware.Guards.{dispatch-guard}
use hawiya_ai.Tenancy.Stack.{Process, Moment, limited, serve}

-- `current_request_id() or ""`.
abbrev or_empty : Option Text → Text
or_empty none = []
or_empty (some s) = s

-- The headers that `JSONResponse` adds are left to the framework.
unfoldable pub unhandled_exception : Platform → Option Text → Response
unhandled_exception platform request_id = record {
  status = 500;
  headers = [];
  chunks = platform.render_error (text "INTERNAL_ERROR") none (or_empty request_id) ∷ [];
}

module _ (platform : Platform) {S : Type 0} (app : App (Context × S)) (ttl_seconds : ℕ)
    (moment : Moment) where
  abbrev pub handled : Outcome × (Context × Process S) → Outcome × (Context × Process S)
  handled (answered response, state) = (answered response, state)
  handled (raised, (context, process)) =
      (answered (unhandled_exception platform context.request_id), (context, process))

  -- The application that `create_app` returns.
  unfoldable pub create_app : App (Context × Process S)
  create_app req state = handled (serve platform app ttl_seconds moment req state)

  module _ (req : Request) (context : Context) (process : Process S) where
    abbrev served : Outcome × (Context × Process S)
    served = serve platform app ttl_seconds moment req (context, process)

    abbrev pub Answers : Outcome × (Context × Process S) → Outcome × (Context × Process S) → Type 0
    Answers r final =
        (final.1 ≡ r.1)
        × (response : Response) × (final.0 ≡ answered response)
        × ((r.0 ≡ answered response)
            ⊎ ((r.0 ≡ raised) × (response ≡ unhandled_exception platform context.request_id)))

    handled-Answers :
        (r : Outcome × (Context × Process S)) → r.1.0 ≡ context → Answers r (handled r)
    handled-Answers (answered response, state) same = (refl, response, refl, inl refl)
    handled-Answers (raised, (bound, p)) same = (
      refl,
      _,
      refl,
      inr (refl, ap (λ (c : Context). unhandled_exception platform c.request_id) same),
    )

    -- Every request is answered. If the middleware and the application answer, the answer is theirs;
    -- if they raise, it is the internal error, whose trace id is the request id of the context before
    -- the request, whatever id the request has itself. The handler changes no state.
    pub create_app-Answers : Answers served (create_app req (context, process))
    unfolding create_app serve
    create_app-Answers =
        handled-Answers served
          (dispatch-guard platform req (limited platform app ttl_seconds moment) moment.fresh
            context process).0

    -- The context variables are as before.
    pub create_app-context : (create_app req (context, process)).1.0 ≡ context
    unfolding serve
    create_app-context =
        ap (λ (x : Context × Process S). x.0) create_app-Answers.0
        ∙ (dispatch-guard platform req (limited platform app ttl_seconds moment) moment.fresh
            context process).0
