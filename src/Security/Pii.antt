-- ===== src/Security/Pii.antt =====
-- src/hawiya/security/pii.py.
pub mod Short
pub mod Runs
pub mod Leaks
use hawiya_ai.Prelude.{
  ℕ, Bool, true, false, ◌&&◌, ◌||◌, Option, none, some, List, [], ◌∷◌, ◌++◌, if◌then◌else◌, ◌==◌,
  leb,
}
use hawiya_ai.Text.{Text, text, text_eq}
use hawiya_ai.Security.Regex.{
  Class, Matcher, stop, one, exactly, up_to, many, between, at_least, literal, boundary, or_else,
  sub,
}

-- What the module takes from Python: the characters of `\w` and `\d`, and `str.lower`.
pub record Python : Type 0 where
  pub is_word : ℕ → Bool
  pub is_decimal : ℕ → Bool
  pub lower : Text → Text

abbrev pub sensitive_keys : List Text
sensitive_keys =
    text "passport_number"
    ∷ text "passport_no"
    ∷ text "document_number"
    ∷ text "doc_number"
    ∷ text "mrz"
    ∷ text "mrz_line_1"
    ∷ text "mrz_line_2"
    ∷ text "mrz_line_3"
    ∷ text "emirates_id"
    ∷ text "national_id"
    ∷ text "gcc_id"
    ∷ text "identifier_value"
    ∷ text "name"
    ∷ text "full_name"
    ∷ text "given_names"
    ∷ text "surname"
    ∷ text "family_name"
    ∷ text "canonical_name_ar"
    ∷ text "canonical_name_en"
    ∷ text "name_value"
    ∷ text "date_of_birth"
    ∷ text "dob"
    ∷ text "birth_date"
    ∷ text "nationality"
    ∷ text "place_of_birth"
    ∷ text "photo"
    ∷ text "photo_bytes"
    ∷ text "image"
    ∷ text "image_bytes"
    ∷ text "signature"
    ∷ text "address"
    ∷ text "phone"
    ∷ text "phone_number"
    ∷ text "email"
    ∷ text "password"
    ∷ text "authorization"
    ∷ text "token"
    ∷ text "secret"
    ∷ text "api_key"
    ∷ []

abbrev pub redacted : Text
redacted = text "***REDACTED***"

abbrev pub is_between : ℕ → ℕ → Class
is_between a b c = leb a c && leb c b

abbrev pub is_upper : Class
is_upper = is_between b'A' b'Z'

abbrev pub is_digit : Class
is_digit = is_between b'0' b'9'

abbrev pub is_letter : Class
is_letter c = is_upper c || is_between b'a' b'z' c

-- `[A-Z0-9<]`.
abbrev pub is_mrz : Class
is_mrz c = is_upper c || (is_digit c || (c == b'<'))

abbrev pub mrz_line_re : Matcher
mrz_line_re = at_least 30 is_mrz stop

-- `[A-Za-z0-9._%+-]` and `[A-Za-z0-9.-]`.
abbrev pub is_domain : Class
is_domain c = is_letter c || (is_digit c || ((c == b'.') || (c == b'-')))

abbrev pub is_local : Class
is_local c = is_domain c || ((c == b'_') || ((c == b'%') || (c == b'+')))

abbrev pub email_re : Matcher
email_re =
    at_least 1 is_local
      (literal (text "@") (at_least 1 is_domain (literal (text ".") (at_least 2 is_letter stop))))

unfoldable pub is_among : List Text → Text → Bool
is_among [] key = false
is_among (k ∷ keys) key = text_eq k key || is_among keys key

-- The values that are logged: any other object is told apart by a number.
pub data Key : Type 0 where
  str_key : Text → Key
  other_key : ℕ → Key

mutual
  pub data Value : Type 0 where
    mapping : Entries → Value
    list : Values → Value
    tuple : Values → Value
    str : Text → Value
    other : ℕ → Value

  pub data Values : Type 0 where
    nil : Values
    cons : Value → Values → Values

  pub data Entries : Type 0 where
    end : Entries
    item : Key → Value → Entries → Entries

module _ (python : Python) where
  open python use {is_word, is_decimal, lower}

  abbrev pub passport_re : Matcher
  passport_re =
      boundary is_word (between 1 1 is_upper (between 6 3 is_digit (boundary is_word stop)))

  -- `\b(19|20)\d{2}-\d{2}-\d{2}\b`.
  abbrev pub century : Matcher → Matcher
  century rest prev s = or_else (literal (text "19") rest prev s) (literal (text "20") rest prev s)

  abbrev pub date_re : Matcher
  date_re = boundary is_word (
      century (
        exactly 2 is_decimal (
          literal (text "-") (
            exactly 2 is_decimal
              (literal (text "-") (exactly 2 is_decimal (boundary is_word stop)))))))

  unfoldable pub is_sensitive_key : Text → Bool
  is_sensitive_key key = is_among sensitive_keys (lower key)

  unfoldable pub redact_string : Text → Text
  redact_string value =
      sub date_re redacted
        (sub email_re redacted (sub passport_re redacted (sub mrz_line_re redacted value)))

  -- `isinstance(k, str) and _is_sensitive_key(k)`.
  abbrev pub is_hidden : Key → Bool
  is_hidden (str_key k) = is_sensitive_key k
  is_hidden (other_key n) = false

  unfoldable mutual
    pub redact_pii : Value → Value
    redact_pii (mapping entries) = mapping (redact_entries entries)
    redact_pii (list values) = list (redact_values values)
    redact_pii (tuple values) = tuple (redact_values values)
    redact_pii (str s) = str (redact_string s)
    redact_pii (other n) = other n

    pub redact_values : Values → Values
    redact_values nil = nil
    redact_values (cons v values) = cons (redact_pii v) (redact_values values)

    pub redact_entries : Entries → Entries
    redact_entries end = end
    redact_entries (item k v entries) =
        let shown = redact_pii v in
        let rest = redact_entries entries in
        item k (if is_hidden k then str redacted else shown) rest
