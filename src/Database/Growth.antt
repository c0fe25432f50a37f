-- ===== src/Database/Growth.antt =====
-- How a request may change the persons and the identifiers: it appends rows of its own tenant.
use hawiya_ai.Prelude.{
  ◌≡◌, ◌≢◌, refl, sym, ◌∙◌, ap, Bool, some, List, [], ◌∷◌, ◌++◌, filter, filter-append, head?,
  head?-append, ==-ne, ◌==◌,
}
use mathlib.Core.List.{append-nil}
use hawiya_ai.Models.{Uuid}

module _ {A : Type 0} (owner : A → Uuid) where
  abbrev pub IsOwn : Uuid → List A → Type 0
  IsOwn tenant_id [] = Unit
  IsOwn tenant_id (row ∷ rows) = (owner row ≡ tenant_id) × IsOwn tenant_id rows

  pub IsOwn-append :
      (tenant_id : Uuid) (rows more : List A)
      → IsOwn tenant_id rows
      → IsOwn tenant_id more
      → IsOwn tenant_id (rows ++ more)
  IsOwn-append tenant_id [] more h k = k
  IsOwn-append tenant_id (row ∷ rows) more h k = (h.0, IsOwn-append tenant_id rows more h.1 k)

  -- The rows of a table behind a request: those before it, and new ones of its tenant.
  pub record IsGrown (tenant_id : Uuid) (before after : List A) : Type 0 where
    pub rows : List A
    pub appended : after ≡ before ++ rows
    pub own : IsOwn tenant_id rows

  pub same-IsGrown :
      (tenant_id : Uuid) (before after : List A) → after ≡ before → IsGrown tenant_id before after
  same-IsGrown tenant_id before after h = record {
    rows = [];
    appended = h ∙ sym (append-nil before);
    own = tt;
  }

  foreign_none :
      (tenant_id other : Uuid) (rows : List A)
      → other ≢ tenant_id
      → IsOwn tenant_id rows
      → filter (λ row. owner row == other) rows ≡ []
  foreign_none tenant_id other [] ne h = refl
  foreign_none tenant_id other (row ∷ rows) ne h =
      rw
        (
          ==-ne (owner row) other (λ e. ne (sym e ∙ h.0)),
          filter,
          foreign_none tenant_id other rows ne h.1,
        )
        refl

  module _ (tenant_id : Uuid) (before after : List A) (grown : IsGrown tenant_id before after) where
    -- The rows of another tenant are the same.
    pub grown-foreign :
        (other : Uuid)
        → other ≢ tenant_id
        → filter (λ row. owner row == other) after ≡ filter (λ row. owner row == other) before
    grown-foreign other ne =
        ap (filter (λ row. owner row == other)) grown.appended
        ∙ filter-append (λ row. owner row == other) before grown.rows
        ∙ ap (λ l. filter (λ row. owner row == other) before ++ l)
            (foreign_none tenant_id other grown.rows ne grown.own)
        ∙ append-nil _

    -- The first row that answers a query answers it still.
    pub grown-first :
        (p : A → Bool) (row : A)
        → head? (filter p before) ≡ some row
        → head? (filter p after) ≡ some row
    grown-first p row h =
        ap (λ l. head? (filter p l)) grown.appended
        ∙ ap head? (filter-append p before grown.rows)
        ∙ head?-append (filter p before) (filter p grown.rows) row h
