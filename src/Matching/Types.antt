-- ===== src/Matching/Types.antt =====
-- `MatchResult` of src/hawiya/matching/types.py, and the test that src/hawiya/services/person_service.py
-- makes on its action.
use hawiya_ai.Prelude.{Option, Bool, true, false}
use hawiya_ai.Text.{Text}
use hawiya_ai.Models.{Uuid, Confidence, MatchAction, Features}

pub record MatchResult : Type 0 where
  pub action : MatchAction
  pub person_uuid : Option Uuid
  pub confidence : Confidence
  pub method : Text
  pub features : Features

-- `action in (AUTO_MATCHED, SUGGESTED_MATCH)`.
abbrev pub is_hit : MatchAction → Bool
is_hit MatchAction.auto_matched = true
is_hit MatchAction.suggested_match = true
is_hit MatchAction.new_record = false
is_hit MatchAction.manual_review = false
is_hit MatchAction.no_match_no_create = false
