-- ===== src/Services/Person/Search.antt =====
-- `PersonService.search` of src/hawiya/services/person_service.py.
use hawiya_ai.Prelude.{ℕ, ◌≡◌, refl, ◌∙◌, true, false, List, [], some, ok, is_empty}
use hawiya_ai.Text.{Text}
use hawiya_ai.Text.Strip.{strip}
use hawiya_ai.Models.{Uuid, Person}
use hawiya_ai.Database.World.{World, Action}
use hawiya_ai.Database.Search.{Postgres, ranked, search_by_name}
use hawiya_ai.Database.Search.Ranked.{IsBest, ranked-IsBest}
use hawiya_ai.Services.Base.{requires_tenant}
use hawiya_ai.Services.Base.Tenancy.{requires_tenant-own}

module _ (postgres : Postgres) where
  unfoldable pub search : Uuid → Text → ℕ → Action (List Person)
  search tenant_id query limit =
      requires_tenant (λ tenant_id. search_by_name postgres tenant_id query limit) tenant_id

  module _ (tenant_id : Uuid) (query : Text) (limit : ℕ) (w : World)
      (context : w.tenant_id ≡ some tenant_id) where
    pub search-blank : is_empty (strip query) ≡ true → search tenant_id query limit w ≡ (ok [], w)
    unfolding search search_by_name
    search-blank blank =
        requires_tenant-own (λ t. search_by_name postgres t query limit) tenant_id w context
        ∙ rw blank refl

    -- In the context of its tenant, a search for more than white space reads and changes nothing, and
    -- answers with the best of those wanted.
    pub search-IsBest :
        is_empty (strip query) ≡ false
        → (best : List Person) × (search tenant_id query limit w ≡ (ok best, w))
          × IsBest postgres tenant_id (strip query) limit w.stored.persons best
    unfolding search search_by_name
    search-IsBest words = (
      ranked postgres tenant_id (strip query) limit w.stored.persons,
      requires_tenant-own (λ t. search_by_name postgres t query limit) tenant_id w context
          ∙ rw words refl,
      ranked-IsBest postgres tenant_id (strip query) limit w.stored.persons,
    )
