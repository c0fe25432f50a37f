-- ===== src/Database/Search.antt =====
-- `PersonRepository.search_by_name` of src/hawiya/db/repositories/person_repository.py.
pub mod Ranked
pub mod Isolation
use hawiya_ai.Prelude.{
  ℕ, ◌*◌, ◌≤◌, max, Bool, true, false, ◌&&◌, Option, none, some, List, [], ◌∷◌, filter, take, ltb,
  ◌==◌, is_empty, if◌then◌else◌,
}
use mathlib.Core.List.{Perm, Pairwise}
use hawiya_ai.Text.{Text}
use hawiya_ai.Text.Strip.{strip}
use hawiya_ai.Models.{Uuid, Person, PersonStatus}
use hawiya_ai.Database.World.{Action, pure, gets, ◌>>=◌}

-- What the query takes from PostgreSQL: `similarity` of pg_trgm, as a number of units of which `scale`
-- make one, and ORDER BY with DESC, which may put rows with equal scores in any order.
pub record Postgres : Type 0 where
  pub similarity : Text → Text → ℕ
  pub scale : ℕ
  pub order_by_desc : (Person → ℕ) → List Person → List Person
  pub order_by_desc-perm :
      (score : Person → ℕ) (rows : List Person) → Perm (order_by_desc score rows) rows
  pub order_by_desc-sorted :
      (score : Person → ℕ) (rows : List Person)
      → Pairwise (λ a b. score b ≤ score a) (order_by_desc score rows)

abbrev is_active : PersonStatus → Bool
is_active PersonStatus.active = true
is_active PersonStatus.merged = false
is_active PersonStatus.archived = false

module _ (postgres : Postgres) where
  open postgres use {similarity, scale, order_by_desc}

  -- `coalesce(similarity(name, q), 0.0)`.
  abbrev similarity_or_zero : Option Text → Text → ℕ
  similarity_or_zero none q = 0
  similarity_or_zero (some name) q = similarity name q

  unfoldable pub score : Text → Person → ℕ
  score q person =
      max (similarity_or_zero person.canonical_name_ar q)
        (similarity_or_zero person.canonical_name_en q)

  -- `score > SIMILARITY_THRESHOLD`, which is 0.3.
  unfoldable pub is_above_threshold : ℕ → Bool
  is_above_threshold units = ltb (3 * scale) (10 * units)

  -- The WHERE clause.
  unfoldable pub is_candidate : Uuid → Text → Person → Bool
  is_candidate tenant_id q person =
      (person.tenant_id == tenant_id)
      && (is_active person.status && is_above_threshold (score q person))

  abbrev pub ranked : Uuid → Text → ℕ → List Person → List Person
  ranked tenant_id q limit rows =
      take limit (order_by_desc (score q) (filter (is_candidate tenant_id q) rows))

  abbrev pub query : Uuid → Text → ℕ → Action (List Person)
  query tenant_id q limit = do
    rows ← gets (λ w. w.stored.persons)
    pure (ranked tenant_id q limit rows)

  -- An empty query strips to nothing, too.
  unfoldable pub search_by_name : Uuid → Text → ℕ → Action (List Person)
  search_by_name tenant_id text limit =
      if is_empty (strip text) then pure [] else query tenant_id (strip text) limit
