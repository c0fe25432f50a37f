-- ===== src/Database/World.antt =====
-- The state of one request: the context variables of src/hawiya/tenancy/context.py, and an
-- `AsyncSession` of src/hawiya/db/session.py. The session is made with `autoflush=False`: an object
-- that is added is pending, and no query or UPDATE sees it before a flush.
use hawiya_ai.Prelude.{ℕ, Option, List, [], ◌∷◌, ◌++◌, Result, ok, err}
use hawiya_ai.Text.{Text}
use hawiya_ai.Models.{
  Uuid, Person, PersonIdentifier, PersonNameVariant, DocumentExtraction, MatchDecision, AuditLog,
}
use hawiya_ai.Matching.Types.{MatchResult}
use hawiya_ai.Extractors.Types.{Error}

pub record Tables : Type 0 where
  pub persons : List Person
  pub identifiers : List PersonIdentifier
  pub name_variants : List PersonNameVariant
  pub extractions : List DocumentExtraction
  pub decisions : List MatchDecision
  pub audit_log : List AuditLog

abbrev pub no_rows : Tables
no_rows = record {
  persons = [];
  identifiers = [];
  name_variants = [];
  extractions = [];
  decisions = [];
  audit_log = [];
}

-- `stored` is what a query sees, `pending` what was added since the last flush, and `drawn` counts the
-- random UUIDs drawn so far.
pub record World : Type 0 where
  pub tenant_id : Option Uuid
  pub request_id : Option Text
  pub stored : Tables
  pub pending : Tables
  pub drawn : ℕ

-- What a service raises.
pub data Failure : Type 0 where
  extraction_error : Error → Failure
  possible_duplicate : MatchResult → Failure
  multiple_results : Failure
  missing_tenant : Failure
  cross_tenant : Failure

-- A coroutine over the request's state. What it wrote before it raised stays written, until the
-- transaction ends.
abbrev pub Action : Type 0 → Type 0
Action A = World → Result Failure A × World

module _ {A : Type 0} where
  abbrev pub pure : A → Action A
  pure a w = (ok a, w)

  abbrev pub raise : Failure → Action A
  raise e w = (err e, w)

  abbrev pub gets : (World → A) → Action A
  gets f w = (ok (f w), w)

abbrev pub continue :
    {A B : Type 0} → (A → Action B) → Result Failure A × World → Result Failure B × World
continue f (ok a, w) = f a w
continue f (err e, w) = (err e, w)

infixl 5 ◌>>=◌ ◌>>◌
abbrev pub ◌>>=◌ : {A B : Type 0} → Action A → (A → Action B) → Action B
◌>>=◌ m f w = continue f (m w)

abbrev pub ◌>>◌ : {A B : Type 0} → Action A → Action B → Action B
m >> k = m >>= λ _. k

abbrev pub modify : (World → World) → Action (Unit {0})
modify f w = (ok tt, f w)

-- `session.add`, by the table of the object.
unfoldable pub add_person : Person → Action (Unit {0})
add_person row =
    modify
      λ w. record w { pending = record (w.pending) { persons = w.pending.persons ++ row ∷ [] } }

unfoldable pub add_identifier : PersonIdentifier → Action (Unit {0})
add_identifier row = modify λ w. record w {
  pending = record (w.pending) { identifiers = w.pending.identifiers ++ row ∷ [] };
}

unfoldable pub add_variant : PersonNameVariant → Action (Unit {0})
add_variant row = modify λ w. record w {
  pending = record (w.pending) { name_variants = w.pending.name_variants ++ row ∷ [] };
}

unfoldable pub add_extraction : DocumentExtraction → Action (Unit {0})
add_extraction row = modify λ w. record w {
  pending = record (w.pending) { extractions = w.pending.extractions ++ row ∷ [] };
}

unfoldable pub add_decision : MatchDecision → Action (Unit {0})
add_decision row =
    modify
      λ w. record w { pending = record (w.pending) { decisions = w.pending.decisions ++ row ∷ [] } }

unfoldable pub add_audit : AuditLog → Action (Unit {0})
add_audit row =
    modify
      λ w. record w { pending = record (w.pending) { audit_log = w.pending.audit_log ++ row ∷ [] } }

-- The rows of both, in the order in which they were added.
unfoldable pub both : Tables → Tables → Tables
both s t = record {
  persons = s.persons ++ t.persons;
  identifiers = s.identifiers ++ t.identifiers;
  name_variants = s.name_variants ++ t.name_variants;
  extractions = s.extractions ++ t.extractions;
  decisions = s.decisions ++ t.decisions;
  audit_log = s.audit_log ++ t.audit_log;
}

-- `session.flush()`. The database takes every row: its constraints (lengths of columns, foreign keys,
-- unique indexes) are not checked, where the source's flush raises if a row breaks one.
unfoldable pub flush : Action (Unit {0})
flush = modify λ w. record w { stored = both w.stored w.pending; pending = no_rows }

-- The transaction of `get_session` ends: a commit flushes, a raise out of the handler rolls back. As in
-- a flush, no constraint of the tables is checked, so this commit never fails.
unfoldable pub commit : World → Tables
commit w = both w.stored w.pending
