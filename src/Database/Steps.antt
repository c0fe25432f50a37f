-- ===== src/Database/Steps.antt =====
-- What a request may do between the tables that it starts from and those that it commits.
use hawiya_ai.Prelude.{ℕ, ◌≤◌, ◌≡◌, sym, ◌∙◌, ap, List, [], ◌++◌, arith, length, filter}
use mathlib.Core.Path.{subst}
use mathlib.Core.List.{append-nil}
use hawiya_ai.Text.{Text}
use hawiya_ai.Models.{Uuid, Person, PersonIdentifier, IdentifierType}
use hawiya_ai.Database.Environment.{Environment}
use hawiya_ai.Database.World.{World, Tables, no_rows, both, commit}
use hawiya_ai.Database.Keys.{IsKeyed, IsFresh}
use hawiya_ai.Database.Repositories.{is_active_as, is_person}
use hawiya_ai.Database.Growth.{IsGrown, same-IsGrown}
use hawiya_ai.Database.Frame.{IsFramed}

pub both-none : (t : Tables) → both t no_rows ≡ t
unfolding both
both-none t i = record {
  persons = append-nil t.persons i;
  identifiers = append-nil t.identifiers i;
  name_variants = append-nil t.name_variants i;
  extractions = append-nil t.extractions i;
  decisions = append-nil t.decisions i;
  audit_log = append-nil t.audit_log i;
}

-- The commit of a request of the tenant that started in the first state and has come to the second:
-- rows are only appended, by the tenant, the keys hold, and the UUIDs still to be drawn are unused.
pub record IsStep (env : Environment) (tenant_id : Uuid) (w v : World) : Type 0 where
  pub keyed : IsKeyed (commit v)
  pub fresh : IsFresh env v.drawn (commit v)
  pub persons :
      IsGrown (λ (row : Person). row.tenant_id) tenant_id w.stored.persons (commit v).persons
  pub identifiers :
      IsGrown
        (λ (row : PersonIdentifier). row.tenant_id)
        tenant_id
        w.stored.identifiers
        (commit v).identifiers
  pub drawn : w.drawn ≤ v.drawn

-- A state with no person and no identifier pending, over tables that are in order.
pub record IsOpen (env : Environment) (w : World) : Type 0 where
  pub no_persons : w.pending.persons ≡ []
  pub no_identifiers : w.pending.identifiers ≡ []
  pub keyed : IsKeyed w.stored
  pub fresh : IsFresh env w.drawn w.stored

pub same-IsKeyed :
    (t t' : Tables)
    → t'.persons ≡ t.persons
    → t'.identifiers ≡ t.identifiers
    → IsKeyed t
    → IsKeyed t'
same-IsKeyed t t' p i k = record {
  identifiers =
      subst
        (λ (l : List PersonIdentifier).
          (tenant_id : Uuid) (ty : IdentifierType) (value : Text)
          → length (filter (is_active_as tenant_id ty value) l) ≤ 1)
        (sym i) k.identifiers;
  persons =
      subst (λ (l : List Person). (t u : Uuid) → length (filter (is_person t u) l) ≤ 1) (sym p)
        k.persons;
}

pub later-IsFresh :
    (env : Environment) (n m : ℕ) (t t' : Tables)
    → n ≤ m
    → t'.persons ≡ t.persons
    → IsFresh env n t
    → IsFresh env m t'
later-IsFresh env n m t t' le p f = record {
  unused = λ k h tenant_id.
      ap (filter (is_person tenant_id (env.uuid4 k))) p ∙ f.unused k (omega arith) tenant_id;
}

module _ (env : Environment) (tenant_id : Uuid) (w v : World) (start : IsOpen env w)
    (framed : IsFramed w v) where
  pub framed-IsOpen : IsOpen env v
  framed-IsOpen = record {
    no_persons = framed.persons ∙ start.no_persons;
    no_identifiers = framed.identifiers ∙ start.no_identifiers;
    keyed = subst IsKeyed (sym framed.stored) start.keyed;
    fresh =
        later-IsFresh env w.drawn v.drawn w.stored v.stored framed.drawn
          (ap (λ (t : Tables). t.persons) framed.stored) start.fresh;
  }

  -- What follows a prefix that leaves the persons and the identifiers as they are.
  pub after-IsStep : (u : World) → IsStep env tenant_id v u → IsStep env tenant_id w u
  after-IsStep u step = record {
    keyed = step.keyed;
    fresh = step.fresh;
    persons =
        subst
          (λ (t : Tables).
            IsGrown (λ (row : Person). row.tenant_id) tenant_id t.persons (commit u).persons)
          framed.stored step.persons;
    identifiers =
        subst
          (λ (t : Tables).
            IsGrown (λ (row : PersonIdentifier). row.tenant_id) tenant_id t.identifiers
              (commit u).identifiers)
          framed.stored step.identifiers;
    drawn = let a = framed.drawn in let b = step.drawn in omega arith;
  }

module _ (env : Environment) (tenant_id : Uuid) (w : World) (start : IsOpen env w) where
  pub committed-persons : (commit w).persons ≡ w.stored.persons
  unfolding commit both
  committed-persons = ap (λ l. w.stored.persons ++ l) start.no_persons ∙ append-nil _

  pub committed-identifiers : (commit w).identifiers ≡ w.stored.identifiers
  unfolding commit both
  committed-identifiers = ap (λ l. w.stored.identifiers ++ l) start.no_identifiers ∙ append-nil _

  -- A request that adds neither a person nor an identifier.
  pub open-IsStep : IsStep env tenant_id w w
  open-IsStep = record {
    keyed = same-IsKeyed w.stored (commit w) committed-persons committed-identifiers start.keyed;
    fresh =
        later-IsFresh env w.drawn w.drawn w.stored (commit w) (omega arith) committed-persons
          start.fresh;
    persons = same-IsGrown _ tenant_id w.stored.persons (commit w).persons committed-persons;
    identifiers =
        same-IsGrown _ tenant_id w.stored.identifiers (commit w).identifiers committed-identifiers;
    drawn = omega arith;
  }

pub framed-IsStep :
    (env : Environment) (tenant_id : Uuid) (w v : World)
    → IsOpen env w
    → IsFramed w v
    → IsStep env tenant_id w v
framed-IsStep env tenant_id w v start framed =
    after-IsStep env tenant_id w v start framed v
      (open-IsStep env tenant_id v (framed-IsOpen env tenant_id w v start framed))
