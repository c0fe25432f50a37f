-- ===== src/Tenancy/Http.antt =====
-- Requests and responses as the middleware of src/hawiya/tenancy sees them, and what the middleware
-- takes from Python, Starlette and the settings.
use hawiya_ai.Prelude.{
  ℕ, ◌+◌, ◌&&◌, Bool, true, Option, none, some, List, [], ◌∷◌, map, leb, if◌then◌else◌, ◌==◌, ◌≡◌,
  ◌↔◌, arith,
}
use hawiya_ai.Text.{Text, text_eq, text_eq_iff}
use hawiya_ai.Extractors.Classifier.{Bytes}
use hawiya_ai.Models.{Uuid}
use hawiya_ai.Dict.{Eq}

-- Headers in order, with names and values as bytes, which are the code points of their Latin-1 text.
abbrev pub Headers : Type 0
Headers = List (Bytes × Bytes)

-- A message of an ASGI `receive`: a piece of the body, and whether more follows, or a disconnect.
pub data Incoming : Type 0 where
  request : Bytes → (more_body : Bool) → Incoming
  disconnect : Incoming

pub record Request : Type 0 where
  pub is_http : Bool
  pub method : Text
  pub path : Text
  pub headers : Headers
  pub incoming : List Incoming

-- A whole response, with its body in pieces.
pub record Response : Type 0 where
  pub status : ℕ
  pub headers : Headers
  pub chunks : List Bytes

-- A call of an application answers or raises.
pub data Outcome : Type 0 where
  answered : Response → Outcome
  raised : Outcome

-- An application over a state.
abbrev pub App : Type 0 → Type 0
App S = Request → S → Outcome × S

pub record Platform : Type 0 where
  -- `uuid.UUID(s)`, or `ValueError`
  pub parse_uuid : Text → Option Uuid
  -- `b.decode("utf-8", errors="replace")` and `s.encode()`
  pub decode_utf8 : Bytes → Text
  pub encode_utf8 : Text → Bytes
  -- `hashlib.sha256(b).hexdigest()`
  pub sha256 : Bytes → Text
  -- the body that `JSONResponse` renders for an error: its code, the seconds to wait if there are any,
  -- and the trace id
  pub render_error : Text → Option ℕ → Text → Bytes
  -- `settings.dev_bearer_token`
  pub dev_bearer_token : Text

abbrev lower_byte : ℕ → ℕ
lower_byte c = if leb b'A' c && leb c b'Z' then c + 32 else c

-- `b.lower()`.
unfoldable pub lower : Bytes → Bytes
lower = map lower_byte

-- `_header_lookup` of src/hawiya/tenancy/idempotency.py; `request.headers.get` of Starlette finds the
-- same value, since a server gives the names in lower case.
unfoldable pub header_lookup : Headers → Bytes → Option Bytes
header_lookup [] name = none
header_lookup ((k, v) ∷ headers) name =
    let rest = header_lookup headers name in if text_eq (lower k) name then some v else rest

-- `response.headers[name] = value` of Starlette: the first entry of the name is replaced, and any
-- other is dropped.
unfoldable pub drop_header : Bytes → Headers → Headers
drop_header name [] = []
drop_header name ((k, v) ∷ headers) =
    let rest = drop_header name headers in if text_eq (lower k) name then rest else (k, v) ∷ rest

unfoldable pub set_header : Bytes → Bytes → Headers → Headers
set_header name value [] = (name, value) ∷ []
set_header name value ((k, v) ∷ headers) =
    let rest = (k, v) ∷ set_header name value headers in
    if text_eq (lower k) name then (name, value) ∷ drop_header name headers else rest

-- A tenant with a text: the key of the dictionaries of the middleware.
abbrev pub Key : Type 0
Key = Uuid × Text

unfoldable pub key_eq : Key → Key → Bool
key_eq (tenant_id, name) (tenant, other) = (tenant_id == tenant) && text_eq name other

pub key_eq_iff : (a b : Key) → (key_eq a b ≡ true) ↔ (a ≡ b)
unfolding key_eq
key_eq_iff (t, s) (u, r) = ground (arith, text_eq_iff s r)

instance abbrev pub key_Eq : Eq Key
key_Eq = record { eq = key_eq; eq_iff = key_eq_iff }
