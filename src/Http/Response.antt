-- ===== src/Http/Response.antt =====
-- `httpserv_http_response_t` of include/http/response.h with its operations, src/http/response.c.
pub mod Build
pub mod Blocks
use httpserv.Prelude.{
  ℕ, ◌+◌, ◌-◌, List, [], ◌∷◌, ◌++◌, Option, some, none, Bool, true, false, length, Bytes, codes,
  if◌then◌else◌,
}
use httpserv.Http.Status.{strstatus}

pub record Response : Type 0 where
  pub status : ℕ
  pub headers : List Bytes
  -- The bytes of the block that `headers` points to.
  pub headers_size : ℕ
  pub body : Option Bytes
  pub numheads : ℕ
  pub bodylength : ℕ
  pub lenght : ℕ

-- `httpserv_http_response_new`; `none` is the read through the NULL that stands for the phrase of an
-- unknown status.
unfoldable pub new : ℕ → Option Response
new status = elim (strstatus status) [
  | none ↦ none
  | some phrase ↦ some (record {
    status = status;
    headers = [];
    headers_size = 0;
    body = none;
    numheads = 0;
    bodylength = 0;
    lenght = 9 + 4 + length phrase + 4;
  })
]

-- The body of `httpserv_http_response_add_header`. The array of headers is given as many bytes as it
-- has entries. The model goes on as if the new entry had found its place.
unfoldable pub push_header : Response → Bytes → Bytes → Response
push_header response key value = record response {
  headers = response.headers ++ (key ++ (codes ": " ++ value)) ∷ [];
  headers_size = response.numheads + 1;
  numheads = response.numheads + 1;
  lenght = response.lenght + (length key + length value + 4);
}

-- `httpserv_http_response_add_header`: nothing happens if an argument is NULL.
unfoldable pub add_header : Option Response → Option Bytes → Option Bytes → Option Response
unfolding push_header
add_header (some response) (some key) (some value) = some (push_header response key value)
add_header response _ _ = response

-- The results 0, 1 and -1 of `httpserv_http_response_set_body`.
pub data BodyResult : Type 0 where
  success alloc_failed no_response : BodyResult

-- The end of `httpserv_http_response_set_body`, with the `lenght` bytes of `body` that are copied.
unfoldable pub push_body : Response → Bytes → ℕ → Response
push_body response body lenght = record response {
  body = some body;
  bodylength = lenght;
  lenght = response.lenght - response.bodylength + lenght;
}

-- `httpserv_http_response_set_body`; `allocated` says whether `realloc` found memory. When it did not,
-- the body is lost.
unfoldable pub set_body : Option Response → Bytes → ℕ → Bool → Option Response × BodyResult
unfolding push_body
set_body none body lenght allocated = (none, no_response)
set_body (some response) body lenght false = (some (record response { body = none }), alloc_failed)
set_body (some response) body lenght true = (some (push_body response body lenght), success)

-- `httpserv_http_response_default` and `httpserv_http_server_version`, at version 0.1.0.
abbrev pub response_default : Bytes
response_default = codes "<h1>libhttpserv.so</h1>"

abbrev pub server_version : Bytes
server_version = codes "cweb/0.1.0"
