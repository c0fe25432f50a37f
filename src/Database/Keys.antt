-- ===== src/Database/Keys.antt =====
-- The keys of the tables: the unique index on active identifiers, the primary key of persons, and
-- that the UUIDs still to be drawn are not in use.
use hawiya_ai.Prelude.{
  ℕ, ◌+◌, ◌≤◌, ◌≡◌, ◌≢◌, sym, ◌∙◌, ap, ap₂, Bool, true, false, List, [], ◌∷◌, ◌++◌, arith, filter,
  filter-append, length, length-append, ==_iff, and-true, Bool-cases, inl, inr,
}
use hawiya_ai.Text.{Text, text_eq_iff}
use hawiya_ai.Models.{Uuid, Person, PersonIdentifier, IdentifierType}
use hawiya_ai.Database.Environment.{Environment}
use hawiya_ai.Database.World.{Tables}
use hawiya_ai.Database.Repositories.{is_active_as, is_person, type_eq}

-- At most one row answers each query, as the unique index on active identifiers and the primary key
-- of persons demand.
pub record IsKeyed (t : Tables) : Type 0 where
  pub identifiers :
      (tenant_id : Uuid) (ty : IdentifierType) (value : Text)
      → length (filter (is_active_as tenant_id ty value) t.identifiers) ≤ 1
  pub persons :
      (tenant_id person_uuid : Uuid)
      → length (filter (is_person tenant_id person_uuid) t.persons) ≤ 1

-- The unique index on a list of identifiers.
abbrev pub HasKeys : List PersonIdentifier → Type 0
HasKeys rows =
    (tenant_id : Uuid) (ty : IdentifierType) (value : Text)
    → length (filter (is_active_as tenant_id ty value) rows) ≤ 1

-- No person has a UUID that is still to be drawn.
pub record IsFresh (env : Environment) (drawn : ℕ) (t : Tables) : Type 0 where
  pub unused :
      (m : ℕ)
      → drawn ≤ m
      → (tenant_id : Uuid) → filter (is_person tenant_id (env.uuid4 m)) t.persons ≡ []

pub filter-one-true :
    {A : Type 0} (p : A → Bool) (row : A) → p row ≡ true → filter p (row ∷ []) ≡ row ∷ []
filter-one-true p row h = rw (h, filter)

pub filter-one-false :
    {A : Type 0} (p : A → Bool) (row : A) → p row ≡ false → filter p (row ∷ []) ≡ []
filter-one-false p row h = rw (h, filter)

-- One more row keeps a key, if no row has its key yet.
pub length-filter-add :
    {A : Type 0} (p : A → Bool) (rows : List A) (row : A)
    → length (filter p rows) ≤ 1
    → (p row ≡ true → filter p rows ≡ [])
    → length (filter p (rows ++ row ∷ [])) ≤ 1
length-filter-add p rows row bound free = elim (Bool-cases (p row)) [
  | inl h ↦
      let e : filter p (rows ++ row ∷ []) ≡ row ∷ [] =
        filter-append p rows (row ∷ []) ∙ rw (free h, filter-one-true p row h) in
      let e' : length (filter p (rows ++ row ∷ [])) ≡ 1 = ap length e in omega arith
  | inr h ↦
      let e : length (filter p (rows ++ row ∷ []))
          ≡ length (filter p rows) + length (filter p (row ∷ [])) =
        ap length (filter-append p rows (row ∷ []))
        ∙ length-append (filter p rows) (filter p (row ∷ [])) in
      let e' : length (filter p (row ∷ [])) ≡ 0 = ap length (filter-one-false p row h) in
      omega arith
]

type_eq→eq : (a b : IdentifierType) → type_eq a b ≡ true → a ≡ b
type_eq→eq a b h = ground arith

pub is_active_as-key :
    (tenant_id : Uuid) (ty : IdentifierType) (value : Text) (row : PersonIdentifier)
    → is_active_as tenant_id ty value row ≡ true
    → (row.tenant_id ≡ tenant_id) × (row.identifier_type ≡ ty) × (row.identifier_value ≡ value)
unfolding is_active_as
is_active_as-key tenant_id ty value row h =
    let (a, rest) = and-true _ _ h in
    let (b, rest') = and-true _ _ rest in
    let (c, _) = and-true _ _ rest' in ((==_iff _ _).0 a, type_eq→eq _ _ b, (text_eq_iff _ _).0 c)

module _ (rows : List PersonIdentifier) (row : PersonIdentifier) where
  -- A new identifier keeps the index, if no active one has its tenant, type and value.
  pub identifiers-add :
      ((tenant_id : Uuid) (ty : IdentifierType) (value : Text)
        → length (filter (is_active_as tenant_id ty value) rows) ≤ 1)
      → filter (is_active_as row.tenant_id row.identifier_type row.identifier_value) rows ≡ []
      → (tenant_id : Uuid) (ty : IdentifierType) (value : Text)
      → length (filter (is_active_as tenant_id ty value) (rows ++ row ∷ [])) ≤ 1
  identifiers-add keyed free tenant_id ty value =
      length-filter-add (is_active_as tenant_id ty value) rows row (keyed tenant_id ty value) λ hit.
        let (a, b, c) = is_active_as-key tenant_id ty value row hit in
        sym (
          ap (λ t. filter (is_active_as t row.identifier_type row.identifier_value) rows) a
          ∙ ap₂ (λ ty' value'. filter (is_active_as tenant_id ty' value') rows) b c)
        ∙ free

  -- An identifier of another type leaves a key free.
  pub free-add :
      (tenant_id : Uuid) (ty : IdentifierType) (value : Text)
      → filter (is_active_as tenant_id ty value) rows ≡ []
      → row.identifier_type ≢ ty
      → filter (is_active_as tenant_id ty value) (rows ++ row ∷ []) ≡ []
  free-add tenant_id ty value free ne = elim (Bool-cases (is_active_as tenant_id ty value row)) [
    | inl h ↦ absurd (ne (is_active_as-key tenant_id ty value row h).1)
    | inr h ↦
        filter-append (is_active_as tenant_id ty value) rows (row ∷ [])
        ∙ rw (free, filter-one-false (is_active_as tenant_id ty value) row h)
  ]

pub is_person-key :
    (tenant_id person_uuid : Uuid) (row : Person)
    → is_person tenant_id person_uuid row ≡ true
    → row.person_uuid ≡ person_uuid
unfolding is_person
is_person-key tenant_id person_uuid row h = (==_iff _ _).0 (and-true _ _ h).1

module _ (env : Environment) (drawn : ℕ) (rows : List Person) (row : Person)
    (drawn_now : row.person_uuid ≡ env.uuid4 drawn)
    (unused : (m : ℕ)
      → drawn ≤ m
      → (tenant_id : Uuid) → filter (is_person tenant_id (env.uuid4 m)) rows ≡ []) where
  -- A person with the next UUID keeps the primary key, and the later UUIDs stay unused.
  pub persons-add :
      ((tenant_id person_uuid : Uuid) → length (filter (is_person tenant_id person_uuid) rows) ≤ 1)
      → (tenant_id person_uuid : Uuid)
      → length (filter (is_person tenant_id person_uuid) (rows ++ row ∷ [])) ≤ 1
  persons-add keyed tenant_id person_uuid =
      length-filter-add (is_person tenant_id person_uuid) rows row (keyed tenant_id person_uuid)
        λ hit.
          ap (λ u. filter (is_person tenant_id u) rows)
            (sym (is_person-key tenant_id person_uuid row hit) ∙ drawn_now)
          ∙ unused drawn (omega arith) tenant_id

  pub unused-add :
      (m : ℕ)
      → drawn + 1 ≤ m
      → (tenant_id : Uuid) → filter (is_person tenant_id (env.uuid4 m)) (rows ++ row ∷ []) ≡ []
  unused-add m h tenant_id = elim (Bool-cases (is_person tenant_id (env.uuid4 m) row)) [
    | inl hit ↦
        let e : drawn ≡ m =
          env.uuid4_injective drawn m
            (sym drawn_now ∙ is_person-key tenant_id (env.uuid4 m) row hit) in
        absurd (omega arith)
    | inr miss ↦
        filter-append (is_person tenant_id (env.uuid4 m)) rows (row ∷ [])
        ∙ rw (
          unused m (omega arith) tenant_id,
          filter-one-false (is_person tenant_id (env.uuid4 m)) row miss,
        )
  ]
