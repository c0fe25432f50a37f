-- ===== src/Database/Environment.antt =====
-- What the program calls and does not implement: Unicode tables, random UUIDs, the clock, SHA-256, and
-- the OCR backend behind the protocol `OCRAdapter` of src/hawiya/extractors/ocr.py.
use hawiya_ai.Prelude.{ℕ, ◌≡◌, List}
use hawiya_ai.Text.{Text}
use hawiya_ai.Text.Unicode.{Unicode}
use hawiya_ai.Extractors.Types.{Attempt}
use hawiya_ai.Models.{Uuid}

pub record Environment : Type 0 where
  pub unicode : Unicode
  -- `datetime.now(tz=UTC).date().year`
  pub this_year : ℕ
  -- the n-th call of `uuid.uuid4()`
  pub uuid4 : ℕ → Uuid
  -- `hashlib.sha256(payload).hexdigest()`
  pub sha256 : List ℕ → Text
  -- `ocr.read_mrz(payload, content_type)`: two lines, or an error
  pub read_mrz : List ℕ → Text → Attempt (Text × Text)
  -- the milliseconds between two readings of `perf_counter_ns` round a call
  pub elapsed_ms : ℕ
  -- random UUIDs do not collide
  pub uuid4_injective : (m n : ℕ) → uuid4 m ≡ uuid4 n → m ≡ n
