-- ===== src/Security/Pii/Leaks.antt =====
-- What `redact_pii` of src/hawiya/security/pii.py lets through of a structure.
use hawiya_ai.Prelude.{◌≡◌, refl, sym, ◌∙◌, ap, ap₂, Bool, true, false, if◌then◌else◌}
use mathlib.Core.Bool.{false≢true}
use hawiya_ai.Security.Pii.Runs.{IsFreeOfMrz, redacted-IsFreeOfMrz, redact_string-IsFreeOfMrz}
use hawiya_ai.Security.Pii.{
  Python, redacted, is_hidden, Key, Value, mapping, list, tuple, str, other, Values, nil, cons,
  Entries, end, item, redact_pii, redact_values, redact_entries,
}

module _ (python : Python) where
  -- The structure with the values under sensitive keys forgotten, at every depth.
  unfoldable mutual
    pub masked : Value → Value
    masked (mapping entries) = mapping (masked_entries entries)
    masked (list values) = list (masked_values values)
    masked (tuple values) = tuple (masked_values values)
    masked (str s) = str s
    masked (other n) = other n

    pub masked_values : Values → Values
    masked_values nil = nil
    masked_values (cons v values) = cons (masked v) (masked_values values)

    pub masked_entries : Entries → Entries
    masked_entries end = end
    masked_entries (item k v entries) =
        let shown = masked v in
        let rest = masked_entries entries in
        item k (if is_hidden python k then other 0 else shown) rest

  item-masked :
      (b : Bool) (k : Key) (mask v : Value) (rest rest' : Entries)
      → redact_pii python mask ≡ redact_pii python v
      → rest ≡ rest'
      → item k (if b then str redacted else redact_pii python (if b then other 0 else mask)) rest
        ≡ item k (if b then str redacted else redact_pii python v) rest'
  item-masked true k mask v rest rest' e r = ap (item k (str redacted)) r
  item-masked false k mask v rest rest' e r = ap₂ (item k) e r

  mutual
    unfolding redact_pii masked

    redact_pii-masked : (v : Value) → redact_pii python (masked v) ≡ redact_pii python v
    redact_pii-masked (mapping entries) = ap mapping (redact_entries-masked entries)
    redact_pii-masked (list values) = ap list (redact_values-masked values)
    redact_pii-masked (tuple values) = ap tuple (redact_values-masked values)
    redact_pii-masked (str s) = refl
    redact_pii-masked (other n) = refl

    redact_values-masked :
        (values : Values)
        → redact_values python (masked_values values) ≡ redact_values python values
    redact_values-masked nil = refl
    redact_values-masked (cons v values) =
        ap₂ cons (redact_pii-masked v) (redact_values-masked values)

    redact_entries-masked :
        (entries : Entries)
        → redact_entries python (masked_entries entries) ≡ redact_entries python entries
    redact_entries-masked end = refl
    redact_entries-masked (item k v entries) =
        item-masked (is_hidden python k) k (masked v) v _ _ (redact_pii-masked v)
          (redact_entries-masked entries)

  -- Structures that differ only in what stands under sensitive keys, at whatever depth, have the same
  -- redaction: nothing of a value under such a key gets through.
  pub redact_pii-hides :
      (v w : Value) → masked v ≡ masked w → redact_pii python v ≡ redact_pii python w
  redact_pii-hides v w e =
      sym (redact_pii-masked v) ∙ ap (redact_pii python) e ∙ redact_pii-masked w

  -- Under a sensitive key stands the replacement, and no text has a run of the machine readable zone.
  unfoldable mutual
    pub IsSafe : Value → Type 0
    IsSafe (mapping entries) = AreSafeEntries entries
    IsSafe (list values) = AreSafe values
    IsSafe (tuple values) = AreSafe values
    IsSafe (str s) = IsFreeOfMrz s
    IsSafe (other n) = Unit

    pub AreSafe : Values → Type 0
    AreSafe nil = Unit
    AreSafe (cons v values) = IsSafe v × AreSafe values

    pub AreSafeEntries : Entries → Type 0
    AreSafeEntries end = Unit
    AreSafeEntries (item k v entries) =
        (is_hidden python k ≡ true → v ≡ str redacted) × (IsSafe v × AreSafeEntries entries)

  item-IsSafe :
      (b : Bool) (v : Value)
      → IsSafe v
      → (b ≡ true → (if b then str redacted else v) ≡ str redacted)
        × IsSafe (if b then str redacted else v)
  unfolding IsSafe
  item-IsSafe true v safe = (λ e. refl, redacted-IsFreeOfMrz)
  item-IsSafe false v safe = (λ e. absurd (false≢true e), safe)

  mutual
    unfolding redact_pii IsSafe

    redact-IsSafe : (v : Value) → IsSafe (redact_pii python v)
    redact-IsSafe (mapping entries) = redact_entries-AreSafe entries
    redact-IsSafe (list values) = redact_values-AreSafe values
    redact-IsSafe (tuple values) = redact_values-AreSafe values
    redact-IsSafe (str s) = redact_string-IsFreeOfMrz python s
    redact-IsSafe (other n) = tt

    redact_values-AreSafe : (values : Values) → AreSafe (redact_values python values)
    redact_values-AreSafe nil = tt
    redact_values-AreSafe (cons v values) = (redact-IsSafe v, redact_values-AreSafe values)

    redact_entries-AreSafe : (entries : Entries) → AreSafeEntries (redact_entries python entries)
    redact_entries-AreSafe end = tt
    redact_entries-AreSafe (item k v entries) =
        let (hidden, safe) =
          item-IsSafe (is_hidden python k) (redact_pii python v) (redact-IsSafe v) in
        (hidden, (safe, redact_entries-AreSafe entries))

  -- At every depth of a redacted structure, a sensitive key has the replacement as its value, and no
  -- text has thirty neighbours that are all of the alphabet `[A-Z0-9<]`.
  pub redact_pii-IsSafe : (v : Value) → IsSafe (redact_pii python v)
  redact_pii-IsSafe v = redact-IsSafe v
