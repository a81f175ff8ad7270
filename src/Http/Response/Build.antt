-- ===== src/Http/Response/Build.antt =====
-- `httpserv_http_response_build` of src/http/response.c.
pub mod Accounting
pub mod Wire
use httpserv.Prelude.{
  ℕ, zero, suc, ◌+◌, List, [], ◌∷◌, ◌++◌, Option, some, none, Bool, true, false, length, Bytes,
  codes, if◌then◌else◌, ◌==◌,
}
use httpserv.Cstring.Decimal.{decimal}
use httpserv.Http.Status.{strstatus, status_valid}
use httpserv.Http.Response.{Response}

-- The result: the string in the buffer, the bytes that the buffer was given, and `len`. Its NUL
-- stands behind the string.
pub record Built : Type 0 where
  pub text : Bytes
  pub size : ℕ
  pub len : ℕ

-- `snprintf(status, 4, …)` keeps three bytes.
abbrev pub take : ℕ → Bytes → Bytes
take zero s = []
take (suc n) [] = []
take (suc n) (c ∷ s) = c ∷ take n s

-- `strncat(content, body, n)` appends up to `n` bytes and stops at a NUL.
unfoldable pub until_nul : ℕ → Bytes → Bytes
until_nul zero s = []
until_nul (suc n) [] = []
until_nul (suc n) (c ∷ s) = if c == 0 then [] else c ∷ until_nul n s

abbrev pub crlf : Bytes
crlf = b'\r' ∷ b'\n' ∷ []

-- The loop over the headers.
unfoldable pub header_lines : ℕ → List Bytes → Bytes
header_lines zero headers = []
header_lines (suc n) [] = []
header_lines (suc n) (header ∷ rest) = (header ++ crlf) ++ header_lines n rest

abbrev pub body_bytes : Option Bytes → Bytes
body_bytes none = []
body_bytes (some body) = body

unfoldable pub concat : List Bytes → Bytes
concat [] = []
concat (s ∷ ss) = s ++ concat ss

-- The pieces that are appended, in order.
unfoldable pub pieces : Response → Bytes → List Bytes
unfolding header_lines until_nul decimal
pieces response phrase =
    codes "HTTP/1.1 "
    ∷ take 3 (decimal response.status ++ codes " ")
    ∷ codes " "
    ∷ phrase
    ∷ crlf
    ∷ header_lines response.numheads response.headers
    ∷ crlf
    ∷ until_nul response.bodylength (body_bytes response.body)
    ∷ []

-- `none` is NULL, for a status that is not valid.
unfoldable pub build : Response → Option Built
unfolding pieces concat
build response = elim (strstatus response.status) [
  | none ↦ none
  | some phrase ↦ some (record {
    text = concat (pieces response phrase);
    size = response.lenght;
    len = response.lenght;
  })
]
