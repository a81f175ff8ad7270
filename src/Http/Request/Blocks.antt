-- ===== src/Http/Request/Blocks.antt =====
-- The blocks of a request, src/http/request.c: what its functions allocate and free. A body and a
-- header are not empty.
pub mod Frees
use httpserv.Prelude.{ℕ, ◌+◌, List, [], ◌∷◌, ◌++◌, Option, some, none, ◌>>=◌}
use httpserv.Http.Response.Blocks.{Change, with_header, with_body}
use httpserv.Memory.{Heap, malloc, free, free_opt, free_all, realloc}

-- The addresses of a `httpserv_http_request_t`, of its path, of its array, of the headers and of the
-- body.
pub record RequestBlocks : Type 0 where
  pub struct : ℕ
  pub path : ℕ
  pub headers : Option ℕ
  pub header_blocks : List ℕ
  pub body : Option ℕ

-- `httpserv_http_request_new`
unfoldable pub new_in : Heap → RequestBlocks × Heap
new_in h = (
  record { struct = h.fresh; path = h.fresh + 1; headers = none; header_blocks = []; body = none },
  malloc (malloc h),
)

-- `httpserv_http_request_add_header`: the array grows, then the header is allocated.
unfoldable pub add_header_in : RequestBlocks → Heap → Option (RequestBlocks × Heap)
add_header_in req h = do
  (headers, h1) ← realloc req.headers h
  some (
    record req { headers = some headers; header_blocks = req.header_blocks ++ h1.fresh ∷ [] },
    malloc h1,
  )

-- `httpserv_http_request_set_body`
unfoldable pub set_body_in : RequestBlocks → Heap → Option (RequestBlocks × Heap)
set_body_in req h = do (body, h1) ← realloc req.body h; some (record req { body = some body }, h1)

-- `if (req->headers)` in `httpserv_http_request_destroy`
pub free_headers : RequestBlocks → Heap → Option Heap
free_headers req h = elim req.headers [
  | none ↦ some h
  | some array ↦ do h1 ← free_all req.header_blocks h; free array h1
]

-- `httpserv_http_request_destroy`
unfoldable pub request_destroy : RequestBlocks → Heap → Option Heap
unfolding free_headers
request_destroy req h = do h1 ← free req.path h; h2 ← free_headers req h1; free_opt req.body h2

abbrev pub change_in : Change → RequestBlocks → Heap → Option (RequestBlocks × Heap)
change_in with_header req h = add_header_in req h
change_in with_body req h = set_body_in req h

unfoldable pub changes_in : List Change → RequestBlocks → Heap → Option (RequestBlocks × Heap)
changes_in [] req h = some (req, h)
changes_in (c ∷ cs) req h = do (req1, h1) ← change_in c req h; changes_in cs req1 h1
