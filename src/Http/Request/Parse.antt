-- ===== src/Http/Request/Parse.antt =====
-- `httpserv_http_request_from_raw` of src/http/request.c. A loop `for (int i = pos; i < raw->len; i++)`
-- recurs on the rounds that are left, `raw->len - i`, beside the memory from `raw->content + i` to the
-- end of its block; a read behind the block is `fault`. Positions stay below 2^31.
pub mod Safety
pub mod Invariant
pub mod Pieces
pub mod RoundTrip
pub mod Reject
use httpserv.Prelude.{
  ℕ, zero, suc, ◌-◌, Bool, true, false, not, ◌&&◌, List, [], ◌∷◌, ◌==◌, if◌then◌else◌, Bytes, codes,
}
use httpserv.Cstring.{eqs, push}
use httpserv.Http.Method.{Method, invalid, strtomethod}
use httpserv.Http.Request.{Request, new, add_header}

-- `httpserv_raw_data_t`: the memory from `content` to the end of its block, and `len`.
pub record RawData : Type 0 where
  pub content : Bytes
  pub len : ℕ

-- `httpserv_raw_data_init`; NULL stands for no bytes.
abbrev pub raw_data_init : RawData
raw_data_init = record { content = []; len = 0 }

-- How a call ends: with a read out of bounds, with NULL, or with a value.
pub data Outcome {ℓ} (A : Type ℓ) : Type ℓ where
  fault : Outcome A
  null : Outcome A
  ok : A → Outcome A

infixl 5 ◌>>=◌
abbrev pub ◌>>=◌ {ℓ κ} : {A : Type ℓ} {B : Type κ} → Outcome A → (A → Outcome B) → Outcome B
fault >>= f = fault
null >>= f = null
ok a >>= f = f a

-- A position: the rounds that are left, and the memory from there.
pub record Cursor : Type 0 where
  pub rounds : ℕ
  pub rest : Bytes

-- The first loop: up to a blank.
unfoldable pub read_method : ℕ → Bytes → Bytes → Outcome (Bytes × Cursor)
read_method zero rest smethod = ok (smethod, record { rounds = zero; rest = rest })
read_method (suc n) [] smethod = fault
read_method (suc n) (c ∷ rest) smethod = elim (c == b' ') [
  | true ↦ ok (smethod, record { rounds = n; rest = rest })
  | false ↦ read_method n rest (push smethod c)
]

abbrev tail : Bytes → Bytes
tail [] = []
tail (c ∷ rest) = rest

-- The second loop: up to a blank, behind which one more byte is skipped. The last byte is no part of
-- a path.
unfoldable pub read_path : ℕ → Bytes → Bytes → Outcome (Bytes × Cursor)
read_path zero rest path = ok (path, record { rounds = zero; rest = rest })
read_path (suc zero) rest path = null
read_path (suc (suc n)) [] path = fault
read_path (suc (suc n)) (c ∷ rest) path = elim (c == b' ') [
  | true ↦ ok (path, record { rounds = n; rest = tail rest })
  | false ↦ read_path (suc n) rest (push path c)
]

-- The third loop: behind the end of the line.
unfoldable pub skip_line : ℕ → Bytes → Outcome Cursor
skip_line zero rest = ok (record { rounds = zero; rest = rest })
skip_line (suc n) [] = fault
skip_line (suc n) (c ∷ []) = if c == b'\r' then fault else skip_line n []
skip_line (suc n) (c ∷ d ∷ rest) = elim (c == b'\r' && d == b'\n') [
  | true ↦ ok (record { rounds = n - 1; rest = rest })
  | false ↦ skip_line n (d ∷ rest)
]

-- The variables of the loop over the headers.
pub record Scan : Type 0 where
  pub req : Request
  pub key : Bytes
  pub value : Bytes
  pub keyread : Bool

-- What one round does: leave the loop, or go on behind one byte or two.
pub data Round : Type 0 where
  stop : Round
  one two : Scan → Round

-- One round at the byte `c`, which `d` follows.
unfoldable pub header_round : Scan → ℕ → ℕ → Round
header_round s c d =
    if eqs s.key [] && eqs s.value [] && c == b'\r' && d == b'\n'
    then stop
    else if not s.keyread && c == b':' && d == b' '
    then two (record s { keyread = true })
    else if not s.keyread
    then one (record s { key = push s.key c })
    else if s.keyread && c == b'\r' && d == b'\n'
    then two
        (record s { req = add_header s.req s.key s.value; key = []; value = []; keyread = false })
    else one (record s { value = push s.value c })

-- The loop over the headers. It rejects the request at the last byte; before that the byte behind
-- the present one is part of the content.
unfoldable pub read_headers : ℕ → Bytes → Scan → Outcome Request
read_headers zero rest s = ok s.req
read_headers (suc zero) rest s = null
read_headers (suc (suc n)) [] s = fault
read_headers (suc (suc n)) (c ∷ []) s = fault
read_headers (suc (suc n)) (c ∷ d ∷ rest) s = elim (header_round s c d) [
  | stop ↦ ok s.req
  | one s' ↦ read_headers (suc n) (d ∷ rest) s'
  | two s' ↦ read_headers n rest s'
]

abbrev pub start : Method → Bytes → Scan
start method path = record { req = new method path; key = []; value = []; keyread = false }

-- `if (method == HTTPSERV_HTTP_METHOD_INVALID) return NULL;`
abbrev pub checked : Method → Outcome Method
checked invalid = null
checked method = ok method

-- `httpserv_http_request_from_raw`
unfoldable pub from_raw : RawData → Outcome Request
from_raw raw = do
  (smethod, at_path) ← read_method raw.len raw.content []
  method ← checked (strtomethod smethod)
  (path, at_version) ← read_path at_path.rounds at_path.rest []
  at_headers ← skip_line at_version.rounds at_version.rest
  read_headers at_headers.rounds at_headers.rest (start method path)
