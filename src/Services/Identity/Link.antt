-- ===== src/Services/Identity/Link.antt =====
-- Which rows `_update_extraction_link` of src/hawiya/services/identity_service.py reaches. The session
-- is made with `autoflush=False`, and `ExtractionService.extract` adds its row without a flush.
use hawiya_ai.Prelude.{◌≡◌, refl, ◌∙◌, ap, Bool, true, false, ◌&&◌, List, ◌++◌, map, some}
use mathlib.Core.List.{append-nil}
use hawiya_ai.Models.{Uuid, DocumentExtraction, MatchAction}
use hawiya_ai.Text.{Text}
use hawiya_ai.Database.Environment.{Environment}
use hawiya_ai.Database.World.{World, both, commit}
use hawiya_ai.Database.Keys.{IsKeyed}
use hawiya_ai.Services.Extraction.{ExtractionResult}
use hawiya_ai.Services.Identity.{linked, is_miss, resolve_extraction}
use hawiya_ai.Services.Identity.Effect.{match_result, new_person, resolved, resolve_extraction-eq}

module _ (env : Environment) (tenant_id : Uuid) (input_hash : Text) (x : ExtractionResult)
    (w : World) where
  abbrev pub creates : Bool → Bool
  creates create_if_missing =
      is_miss (match_result env tenant_id input_hash x w).action && create_if_missing

  -- The extraction rows that the request commits.
  abbrev pub linked_rows : Bool → List DocumentExtraction
  linked_rows true =
      map
        (linked tenant_id x.extraction_id
          (some (new_person env tenant_id input_hash x w).person_uuid) MatchAction.new_record)
        (w.stored.extractions ++ w.pending.extractions)
  linked_rows false =
      let m = match_result env tenant_id input_hash x w in
      map (linked tenant_id x.extraction_id m.person_uuid m.action) w.stored.extractions
      ++ w.pending.extractions

  rows-eq :
      (b : Bool) → (commit (resolved env tenant_id input_hash x w b).1).extractions ≡ linked_rows b
  unfolding commit both
  rows-eq true = append-nil _
  rows-eq false = refl

  -- Over keyed rows, a request that creates the person links the stored and the pending extraction
  -- rows of its extraction to it, since the creation flushes them; any other request links stored
  -- rows only, and commits the pending ones as they were added.
  pub resolve-link :
      IsKeyed w.stored
      → (create_if_missing : Bool)
      → (commit (resolve_extraction env tenant_id input_hash create_if_missing x w).1).extractions
        ≡ linked_rows (creates create_if_missing)
  resolve-link k create_if_missing =
      ap (λ r. (commit r.1).extractions)
        (resolve_extraction-eq env tenant_id input_hash x w k create_if_missing)
      ∙ rows-eq (creates create_if_missing)
