-- ===== src/Database/Frame.antt =====
-- Actions that leave the persons and the identifiers as they are, composed step by step.
use hawiya_ai.Prelude.{
  ◌≤◌, ◌≡◌, refl, ◌∙◌, Bool, true, false, List, [], ◌∷◌, Result, ok, err, arith, if◌then◌else◌,
}
use hawiya_ai.Models.{AuditLog}
use hawiya_ai.Database.World.{World, Action, Failure, pure, raise, gets, continue, ◌>>=◌, add_audit}
use hawiya_ai.Database.Repositories.{scalar_one_or_none}

-- The tables, the context and the pending persons and identifiers are the same; UUIDs may be drawn.
pub record IsFramed (w v : World) : Type 0 where
  pub context : v.tenant_id ≡ w.tenant_id
  pub stored : v.stored ≡ w.stored
  pub persons : v.pending.persons ≡ w.pending.persons
  pub identifiers : v.pending.identifiers ≡ w.pending.identifiers
  pub drawn : w.drawn ≤ v.drawn

pub same-IsFramed : (w : World) → IsFramed w w
same-IsFramed w = record {
  context = refl;
  stored = refl;
  persons = refl;
  identifiers = refl;
  drawn = omega arith;
}

pub then-IsFramed : (w v u : World) → IsFramed w v → IsFramed v u → IsFramed w u
then-IsFramed w v u h k = record {
  context = k.context ∙ h.context;
  stored = k.stored ∙ h.stored;
  persons = k.persons ∙ h.persons;
  identifiers = k.identifiers ∙ h.identifiers;
  drawn = let a = h.drawn in let b = k.drawn in omega arith;
}

abbrev pub Frames : {A : Type 0} → Action A → Type 0
Frames m = (w : World) → IsFramed w (m w).1

pub raise-Frames : (A : Type 0) (e : Failure) → Frames {A = A} (raise e)
raise-Frames A e w = same-IsFramed w

module _ {A : Type 0} where
  pub pure-Frames : (a : A) → Frames (pure a)
  pure-Frames a w = same-IsFramed w

  pub gets-Frames : (f : World → A) → Frames (gets f)
  gets-Frames f w = same-IsFramed w

  pub if-Frames : (b : Bool) (m k : Action A) → Frames m → Frames k → Frames (if b then m else k)
  if-Frames true m k hm hk = hm
  if-Frames false m k hm hk = hk

  pub scalar-Frames : (rows : List A) → Frames (scalar_one_or_none rows)
  scalar-Frames [] w = same-IsFramed w
  scalar-Frames (row ∷ []) w = same-IsFramed w
  scalar-Frames (row ∷ other ∷ rows) w = same-IsFramed w

module _ {A B : Type 0} (f : A → Action B) (framed : (a : A) → Frames (f a)) where
  continue-IsFramed :
      (w : World) (r : Result Failure A × World) → IsFramed w r.1 → IsFramed w (continue f r).1
  continue-IsFramed w (ok a, v) h = then-IsFramed w v (f a v).1 h (framed a v)
  continue-IsFramed w (err e, v) h = h

  pub bind-Frames : (m : Action A) → Frames m → Frames (m >>= f)
  bind-Frames m h w = continue-IsFramed w (m w) (h w)

pub add_audit-Frames : (row : AuditLog) → Frames (add_audit row)
unfolding add_audit
add_audit-Frames row w = record {
  context = refl;
  stored = refl;
  persons = refl;
  identifiers = refl;
  drawn = omega arith;
}
