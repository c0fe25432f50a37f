-- ===== src/Services/Identity/Verdicts.antt =====
-- What the verdicts of the matcher mean to src/hawiya/services/identity_service.py.
use hawiya_ai.Prelude.{◌≡◌, refl, Bool, true, false, some, arith}
use hawiya_ai.Models.{PersonIdentifier, MatchAction}
use hawiya_ai.Matching.Types.{is_hit}
use hawiya_ai.Matching.Deterministic.{passport_result}
use hawiya_ai.Services.Identity.{is_miss}

pub miss-hit : (a : MatchAction) → is_miss a ≡ true → is_hit a ≡ false
miss-hit MatchAction.auto_matched h = absurd (ground arith)
miss-hit MatchAction.suggested_match h = absurd (ground arith)
miss-hit MatchAction.new_record h = refl
miss-hit MatchAction.manual_review h = refl
miss-hit MatchAction.no_match_no_create h = refl

pub found-miss :
    (row : PersonIdentifier) (n d : Bool) → is_miss (passport_result row n d).action ≡ false
unfolding passport_result
found-miss row true true = refl
found-miss row true false = refl
found-miss row false d = refl

pub found-person :
    (row : PersonIdentifier) (n d : Bool)
    → (passport_result row n d).person_uuid ≡ some row.person_uuid
unfolding passport_result
found-person row true true = refl
found-person row true false = refl
found-person row false d = refl
