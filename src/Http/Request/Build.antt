-- ===== src/Http/Request/Build.antt =====
-- `httpserv_http_request_build` of src/http/request.c: it computes a length and allocates a block,
-- which it never writes.
use httpserv.Prelude.{
  ℕ, zero, suc, ◌+◌, ◌≡◌, refl, ap, ◌∙◌, List, [], ◌∷◌, ◌++◌, Option, some, none, Bytes, codes,
  length, length-append, arith, ◌>>=◌,
}
use mathlib.Core.List.{map}
use httpserv.Http.Method.{Method, strmethod}
use httpserv.Http.Request.{Request, set_body, header_line}
use httpserv.Http.Request.Parse.{RawData}
use httpserv.Http.Request.Parse.RoundTrip.{render_fields, render_head, request_of}

-- The loop, with the rounds that are left; `none` is a read behind the headers.
unfoldable pub add_lengths : ℕ → List Bytes → ℕ → Option ℕ
add_lengths zero headers len = some len
add_lengths (suc n) [] len = none
add_lengths (suc n) (header ∷ headers) len = add_lengths n headers (len + (length header + 2))

-- The bytes of a block that is not written.
unfoldable pub block : (ℕ → ℕ) → ℕ → Bytes
block junk zero = []
block junk (suc n) = junk 0 ∷ block (λ i. junk (i + 1)) n

-- `httpserv_http_request_build`; `none` is a read through NULL, or behind the headers.
unfoldable pub request_build : (ℕ → ℕ) → Request → Option RawData
unfolding add_lengths block
request_build junk req = do
  name ← strmethod req.method
  len ←
      add_lengths req.numheaders req.headers
        (9 + length name + 1 + length req.path + 4 + req.content_length)
  some (record { content = block junk len; len = len })

-- The length of the lines for headers.
abbrev lines_length : List (Bytes × Bytes) → ℕ
lines_length [] = 0
lines_length ((k, v) ∷ fields) = length (header_line k v) + 2 + lines_length fields

add_lengths-fields :
    (fields : List (Bytes × Bytes)) (len : ℕ)
    → add_lengths (length fields) (map (λ f. header_line f.0 f.1) fields) len
      ≡ some (len + lines_length fields)
unfolding add_lengths
add_lengths-fields [] len = ap some (omega arith)
add_lengths-fields ((k, v) ∷ fields) len =
    add_lengths-fields fields (len + (length (header_line k v) + 2)) ∙ ap some (omega arith)

length-render_fields :
    (fields : List (Bytes × Bytes)) → length (render_fields fields) ≡ lines_length fields + 2
length-render_fields [] = refl
length-render_fields ((k, v) ∷ fields) = omega (
  arith,
  length-render_fields fields,
  length-append k (b':' ∷ b' ' ∷ (v ++ (b'\r' ∷ b'\n' ∷ render_fields fields))),
  length-append v (b'\r' ∷ b'\n' ∷ render_fields fields),
  length-append k (b':' ∷ b' ' ∷ v),
)

length-render_head :
    (name path : Bytes) (v : ℕ) (version : Bytes) (fields : List (Bytes × Bytes))
    → length (render_head name path v version fields)
      ≡ length name + length path + length version + lines_length fields + 7
length-render_head name path v version fields = omega (
  arith,
  length-render_fields fields,
  length-append name
      (b' ' ∷ (path ++ (b' ' ∷ v ∷ (version ++ (b'\r' ∷ b'\n' ∷ render_fields fields))))),
  length-append path (b' ' ∷ v ∷ (version ++ (b'\r' ∷ b'\n' ∷ render_fields fields))),
  length-append version (b'\r' ∷ b'\n' ∷ render_fields fields),
)

length-block : (junk : ℕ → ℕ) (n : ℕ) → length (block junk n) ≡ n
unfolding block
length-block junk zero = refl
length-block junk (suc n) = ap suc (length-block (λ i. junk (i + 1)) n)

-- For a request of a method with a name, a path, some headers and a body, the builder returns a
-- block of just as many bytes as the head of that request and its body have, and `len` is that
-- number; what the block holds is not said, as it is never written.
pub request_build-render_head :
    (junk : ℕ → ℕ) (m : Method) {name : Bytes} (path body : Bytes) (n : ℕ)
    (fields : List (Bytes × Bytes))
    → strmethod m ≡ some name
    → (raw : RawData) × (request_build junk (set_body (request_of m path fields) body n) ≡ some raw)
      × (raw.len ≡ length (render_head name path b'H' (codes "TTP/1.1") fields) + n)
      × (length raw.content ≡ raw.len)
unfolding request_build set_body
request_build-render_head junk m {name} path body n fields named =
    let total = 9 + length name + 1 + length path + 4 + n + lines_length fields in
    (
      record { content = block junk total; len = total },
      rw (named, ◌>>=◌) (rw (add_lengths-fields, ◌>>=◌) refl),
      omega (arith, length-render_head name path b'H' (codes "TTP/1.1") fields),
      length-block junk total,
    )
