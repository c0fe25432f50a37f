-- ===== src/Tests/Tenants.antt =====
-- Witnesses for the matcher and the services of persons, in a tenant with one person.
use hawiya_ai.Prelude.{◌≡◌, refl, false, Option, none, some, [], ◌∷◌}
use hawiya_ai.Text.{Text, text, text_eq}
use hawiya_ai.Matching.Types.{is_hit}
use hawiya_ai.Matching.Deterministic.{match, no_match_result}
use hawiya_ai.Matching.Decision.{decide}
use hawiya_ai.Matching.Isolation.{match-IsSameRead}
use hawiya_ai.Database.World.{World}
use hawiya_ai.Database.Reads.{IsSameRead, IsSameTenant}
use hawiya_ai.Database.Repositories.{is_active_as}
use hawiya_ai.Services.Person.Effect.{guard_result}
use hawiya_ai.Services.Person.Duplicates.{IsReady}
use hawiya_ai.Tests.Sample.{
  environment, world, tables, tables-IsKeyed, tables-IsFresh, identifier, body,
}

abbrev number : Option Text
number = some (text "L898902C3")

-- The same tenant, with a row of another tenant that has the same passport number.
abbrev crowded : World
crowded = record world {
  stored = record tables {
    identifiers = identifier ∷ record identifier { tenant_id = 2; person_uuid = 9 } ∷ [];
  };
}

crowded-IsSameTenant : IsSameTenant 1 world crowded
crowded-IsSameTenant = record { identifiers = refl; persons = refl }

match-IsSameRead_example : IsSameRead (match 1 none number none none) world crowded
match-IsSameRead_example =
    match-IsSameRead 1 world crowded crowded-IsSameTenant none number none none

pub world-IsReady : IsReady environment 1 world
world-IsReady = record {
  context = refl;
  clean = refl;
  keyed = tables-IsKeyed;
  fresh = tables-IsFresh;
}

-- The body's numbers are new to the tenant.
pub body-miss : is_hit (guard_result environment body 1 world).action ≡ false
unfolding decide is_active_as text_eq no_match_result
body-miss = refl
