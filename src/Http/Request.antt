-- ===== src/Http/Request.antt =====
-- `httpserv_http_request_t` of include/http/request.h with its operations, src/http/request.c. The
-- parser is in the child Parse. An allocation is taken to succeed.
pub mod Parse
pub mod Build
pub mod Blocks
pub mod Headers
use httpserv.Prelude.{
  ℕ, zero, suc, ◌+◌, List, [], ◌∷◌, ◌++◌, Option, some, none, leb, if◌then◌else◌, length, drop,
  Bytes, codes,
}
use httpserv.Cstring.{starts_with}
use httpserv.Http.Method.{Method}

pub record Request : Type 0 where
  pub method : Method
  pub path : Bytes
  pub headers : List Bytes
  pub numheaders : ℕ
  pub body : Option Bytes
  pub content_length : ℕ

-- `httpserv_http_request_new`
unfoldable pub new : Method → Bytes → Request
new method path = record {
  method = method;
  path = path;
  headers = [];
  numheaders = 0;
  body = none;
  content_length = 0;
}

-- `snprintf(…, "%s: %s", key, value)`; the buffer has room for all of it.
abbrev pub header_line : Bytes → Bytes → Bytes
header_line key value = key ++ (codes ": " ++ value)

-- `httpserv_http_request_add_header`
unfoldable pub add_header : Request → Bytes → Bytes → Request
add_header req key value = record req {
  headers = req.headers ++ header_line key value ∷ [];
  numheaders = req.numheaders + 1;
}

-- `httpserv_http_request_set_body`, with `body` the `len` bytes that are copied.
unfoldable pub set_body : Request → Bytes → ℕ → Request
set_body req body len = record req { body = some body; content_length = len }

-- The pointer that `httpserv_http_request_get_header` returns: NULL, the text that it points to, or
-- a pointer behind the NUL of the header.
pub data Found : Type 0 where
  null : Found
  text : Bytes → Found
  past_end : Found

-- `header += strlen(key) + 2`
pub skip : ℕ → Bytes → Found
skip n header = if leb n (length header) then text (drop n header) else past_end

-- The loop over `i`, with the rounds that are left and the headers from `i` on; it reads a header
-- that is not there if `numheaders` is too large.
pub find_header : ℕ → List Bytes → Bytes → Found
find_header zero headers key = null
find_header (suc n) [] key = past_end
find_header (suc n) (header ∷ rest) key =
    if starts_with header key then skip (length key + 2) header else find_header n rest key

-- `httpserv_http_request_get_header`
unfoldable pub get_header : Option Request → Bytes → Found
unfolding find_header skip
get_header none key = null
get_header (some req) key = find_header req.numheaders req.headers key
