-- ===== src/Api/Health.antt =====
-- src/hawiya/api/health.py: the probes. The framework sends what they return with status 200.
use hawiya_ai.Prelude.{◌≡◌, refl, Option, none, some, List, [], ◌∷◌, ◌++◌, all, if◌then◌else◌}
use hawiya_ai.Text.{Text, text, text_eq}

pub record HealthResponse : Type 0 where
  pub status : Text
  pub version : Text

pub record ReadinessResponse : Type 0 where
  pub status : Text
  pub checks : List (Text × Text)

-- `__version__` is a constant of the package.
unfoldable pub health : Text → HealthResponse
health version = record { status = text "ok"; version = version }

-- The check of the database: the name of the exception, if connecting or `SELECT 1` raises one.
abbrev database_check : Option Text → Text
database_check none = text "ok"
database_check (some exception) = text "fail: " ++ exception

abbrev overall : List (Text × Text) → Text
overall checks =
    if all (λ check. text_eq check.1 (text "ok")) checks then text "ok" else text "degraded"

unfoldable pub ready : Option Text → ReadinessResponse
ready failure =
    let checks : List (Text × Text) = (text "database", database_check failure) ∷ [] in
    record { status = overall checks; checks = checks }

-- A database that cannot be reached is reported in the body.
ready_tests :
    (ready none ≡ record { status = text "ok"; checks = (text "database", text "ok") ∷ [] })
    × (ready (some (text "OperationalError")) ≡ record {
      status = text "degraded";
      checks = (text "database", text "fail: OperationalError") ∷ [];
    })
unfolding ready text_eq
ready_tests = (refl, refl)
