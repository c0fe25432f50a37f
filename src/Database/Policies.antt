-- ===== src/Database/Policies.antt =====
-- The row-level security of src/hawiya/db/migrations/versions, and `set_session_tenant` of
-- src/hawiya/db/session.py, which gives the policies their setting.
use hawiya_ai.Prelude.{
  ℕ, ◌≡◌, refl, sym, ap, Bool, false, Option, none, some, List, [], ◌∷◌, filter, filter-filter,
  ◌==◌,
}
use mathlib.Core.Path.{subst}
use hawiya_ai.Text.{Text}
use hawiya_ai.Date.{Date}
use hawiya_ai.Models.{
  Uuid, Person, PersonIdentifier, DocumentExtraction, AuditLog, PersonNameVariant, MatchDecision,
}
use hawiya_ai.Matching.Deterministic.{match}
use hawiya_ai.Matching.Isolation.{match-IsSameRead}
use hawiya_ai.Database.World.{World, Tables, no_rows}
use hawiya_ai.Database.Reads.{IsSameRead, IsSameTenant}
use hawiya_ai.Database.Search.{Postgres, search_by_name}
use hawiya_ai.Database.Search.Isolation.{search_by_name-IsSameRead}

-- `tenant_id::text = current_setting('app.current_tenant', true)`, which is null without a setting.
unfoldable pub admits : Option Uuid → Uuid → Bool
admits none tenant_id = false
admits (some setting) tenant_id = tenant_id == setting

-- The policies on the audit log and on the extractions.
unfoldable pub visible_audit_log : Option Uuid → List AuditLog → List AuditLog
visible_audit_log setting rows = filter (λ row. admits setting row.tenant_id) rows

unfoldable pub visible_extractions : Option Uuid → List DocumentExtraction → List DocumentExtraction
visible_extractions setting rows = filter (λ row. admits setting row.tenant_id) rows

-- What a session sees, with the policies on the tables of the person registry.
unfoldable pub visible : Option Uuid → Tables → Tables
visible setting t = record {
  persons = filter (λ row. admits setting row.tenant_id) t.persons;
  identifiers = filter (λ row. admits setting row.tenant_id) t.identifiers;
  name_variants = filter (λ row. admits setting row.tenant_id) t.name_variants;
  extractions = visible_extractions setting t.extractions;
  decisions = filter (λ row. admits setting row.tenant_id) t.decisions;
  audit_log = visible_audit_log setting t.audit_log;
}

-- The same request on what the policies let it see: `set_session_tenant` puts the tenant of the context
-- into the setting, where a UUID stands for its text.
abbrev pub secured : World → World
secured w = record w { stored = visible w.tenant_id w.stored }

filter-none :
    {A : Type 0} (owner : A → Uuid) (rows : List A)
    → filter (λ row. admits none (owner row)) rows ≡ []
unfolding admits
filter-none owner [] = refl
filter-none owner (row ∷ rows) = filter-none owner rows

-- A session without a setting sees no row of any table.
pub visible-none : (t : Tables) → visible none t ≡ no_rows
unfolding visible visible_extractions visible_audit_log
visible-none t i = record {
  persons = filter-none (λ (row : Person). row.tenant_id) t.persons i;
  identifiers = filter-none (λ (row : PersonIdentifier). row.tenant_id) t.identifiers i;
  name_variants = filter-none (λ (row : PersonNameVariant). row.tenant_id) t.name_variants i;
  extractions = filter-none (λ (row : DocumentExtraction). row.tenant_id) t.extractions i;
  decisions = filter-none (λ (row : MatchDecision). row.tenant_id) t.decisions i;
  audit_log = filter-none (λ (row : AuditLog). row.tenant_id) t.audit_log i;
}

module _ (tenant_id : Uuid) (w : World) (context : w.tenant_id ≡ some tenant_id) where
  setting-eq : secured w ≡ record w { stored = visible (some tenant_id) w.stored }
  setting-eq = ap (λ (o : Option Uuid). record w { stored = visible o w.stored }) context

  own-IsSameTenant :
      IsSameTenant tenant_id w (record w { stored = visible (some tenant_id) w.stored })
  unfolding visible admits
  own-IsSameTenant = record {
    identifiers = sym (filter-filter _ _ w.stored.identifiers (λ row h. h));
    persons = sym (filter-filter _ _ w.stored.persons (λ row h. h));
  }

  secured-IsSameTenant : IsSameTenant tenant_id w (secured w)
  secured-IsSameTenant =
      subst (λ (v : World). IsSameTenant tenant_id w v) (sym setting-eq) own-IsSameTenant

  -- In the context of its tenant, the matcher gives the same result or raises the same error, and a
  -- search finds the same persons in the same order, whether the policies of the database hide the
  -- rows of other tenants or not. Neither changes anything.
  pub reads-secured :
      (postgres : Postgres)
      → ((emirates_id passport_number nationality : Option Text) (dob : Option Date)
          → IsSameRead (match tenant_id emirates_id passport_number nationality dob) w (secured w))
        × ((query : Text) (limit : ℕ)
            → IsSameRead (search_by_name postgres tenant_id query limit) w (secured w))
  reads-secured postgres = (
    match-IsSameRead tenant_id w (secured w) secured-IsSameTenant,
    search_by_name-IsSameRead postgres tenant_id w (secured w) secured-IsSameTenant,
  )
