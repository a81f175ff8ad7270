-- ===== src/Http/Response/Blocks.antt =====
-- The blocks of a response, src/http/response.c: what its functions allocate and free. A body and a
-- header are not empty.
pub mod Frees
use httpserv.Prelude.{ℕ, List, [], ◌∷◌, ◌++◌, Option, some, none, ◌>>=◌}
use httpserv.Memory.{Heap, malloc, free, free_opt, free_all, realloc}

-- The addresses of a `httpserv_http_response_t`, of its array, of the headers and of the body.
pub record ResponseBlocks : Type 0 where
  pub struct : ℕ
  pub headers : Option ℕ
  pub header_blocks : List ℕ
  pub body : Option ℕ

-- `httpserv_http_response_new`
unfoldable pub new_in : Heap → ResponseBlocks × Heap
new_in h = (record { struct = h.fresh; headers = none; header_blocks = []; body = none }, malloc h)

-- `httpserv_http_response_add_header`: the header is allocated first, then the array grows.
unfoldable pub add_header_in : ResponseBlocks → Heap → Option (ResponseBlocks × Heap)
add_header_in r h = do
  (headers, h1) ← realloc r.headers (malloc h)
  some (record r { headers = some headers; header_blocks = r.header_blocks ++ h.fresh ∷ [] }, h1)

-- `httpserv_http_response_set_body`
unfoldable pub set_body_in : ResponseBlocks → Heap → Option (ResponseBlocks × Heap)
set_body_in r h = do (body, h1) ← realloc r.body h; some (record r { body = some body }, h1)

-- `httpserv_http_response_destroy`
unfoldable pub response_destroy : ResponseBlocks → Heap → Option Heap
response_destroy r h = do
  h1 ← free_all r.header_blocks h
  h2 ← free_opt r.body h1
  h3 ← free_opt r.headers h2
  free r.struct h3

-- Calls that change a response, or a request.
pub data Change : Type 0 where
  with_header with_body : Change

abbrev pub change_in : Change → ResponseBlocks → Heap → Option (ResponseBlocks × Heap)
change_in with_header r h = add_header_in r h
change_in with_body r h = set_body_in r h

unfoldable pub changes_in : List Change → ResponseBlocks → Heap → Option (ResponseBlocks × Heap)
changes_in [] r h = some (r, h)
changes_in (c ∷ cs) r h = do (r1, h1) ← change_in c r h; changes_in cs r1 h1
