-- ===== src/Database/Search/Isolation.antt =====
-- `search_by_name` of src/hawiya/db/repositories/person_repository.py reads its tenant's persons only.
use hawiya_ai.Prelude.{
  ℕ, ◌≡◌, refl, ap, sym, Bool, true, false, and-true, ◌==◌, List, [], ok, is_empty, if◌then◌else◌,
  take,
}
use hawiya_ai.Text.{Text}
use hawiya_ai.Text.Strip.{strip}
use hawiya_ai.Models.{Uuid, Person}
use hawiya_ai.Database.World.{World, pure}
use hawiya_ai.Database.Reads.{IsSameRead, IsSameTenant, pure-IsSameRead, selects_same}
use hawiya_ai.Database.Search.{Postgres, score, is_candidate, ranked, query, search_by_name}

is_candidate-tenant :
    (postgres : Postgres) (tenant_id : Uuid) (q : Text) (row : Person)
    → is_candidate postgres tenant_id q row ≡ true
    → (row.tenant_id == tenant_id) ≡ true
unfolding is_candidate
is_candidate-tenant postgres tenant_id q row h = (and-true _ _ h).0

module _ (postgres : Postgres) (tenant_id : Uuid) (w v : World)
    (same : IsSameTenant tenant_id w v) where
  query-IsSameRead : (q : Text) (limit : ℕ) → IsSameRead (query postgres tenant_id q limit) w v
  query-IsSameRead q limit =
      let rows : ranked postgres tenant_id q limit v.stored.persons
          ≡ ranked postgres tenant_id q limit w.stored.persons =
        ap (λ (l : List Person). take limit (postgres.order_by_desc (score postgres q) l))
          (sym (
            selects_same (is_candidate postgres tenant_id q)
              (λ (row : Person). row.tenant_id == tenant_id) _ _
              (is_candidate-tenant postgres tenant_id q) same.persons)) in
      (
        ok (ranked postgres tenant_id q limit w.stored.persons),
        refl,
        ap (λ (l : List Person). (ok l, v)) rows,
      )

  -- In two states that hold the same identifiers and the same persons of a tenant, a search of that
  -- tenant gives the same persons in the same order, and it changes neither state.
  pub search_by_name-IsSameRead :
      (text : Text) (limit : ℕ) → IsSameRead (search_by_name postgres tenant_id text limit) w v
  unfolding search_by_name
  search_by_name-IsSameRead text limit = on_words (is_empty (strip text))
    where
      on_words :
          (blank : Bool)
          → IsSameRead (if blank then pure [] else query postgres tenant_id (strip text) limit) w v
      on_words true = pure-IsSameRead [] w v
      on_words false = query-IsSameRead (strip text) limit
