-- ===== src/Http/Request/Parse/RoundTrip.antt =====
-- The parser reads back a request head that is written out. Each lemma runs a loop over one piece,
-- with any rest of the content and any memory behind it.
use httpserv.Prelude.{
  ℕ, suc, ◌+◌, ◌≡◌, ◌≢◌, refl, ap, ◌∙◌, Bool, true, false, List, [], ◌∷◌, ◌++◌, arith, length,
  Bytes, All, append-nil, append_assoc, none, some, Option,
}
use mathlib.Core.List.{map}
use httpserv.Cstring.{eqs_iff}
use httpserv.Http.Method.{Method, strmethod, strtomethod}
use httpserv.Http.Method.RoundTrip.{strtomethod-strmethod}
use httpserv.Http.Request.{Request, new, add_header, header_line}
use httpserv.Http.Request.Parse.{
  RawData, ok, ◌>>=◌, Cursor, read_method, read_path, skip_line, Scan, stop, one, two, header_round,
  read_headers, start, checked, from_raw,
}
use httpserv.Http.Request.Parse.Pieces.{
  IsWord, IsLine, IsKey, read_method-append, read_path-append, skip_line-append,
}

abbrev scan : Request → Bytes → Bytes → Bool → Scan
scan req key value keyread = record { req = req; key = key; value = value; keyread = keyread }

module _ (req : Request) (key value : Bytes) where
  header_round-key :
      (c d : ℕ)
      → (c ≢ 0) × (c ≢ b'\r') × (c ≢ b':')
      → header_round (scan req key value false) c d ≡ one (scan req (key ++ c ∷ []) value false)
  unfolding header_round
  header_round-key c d h = ground arith

  header_round-colon :
      header_round (scan req key value false) b':' b' ' ≡ two (scan req key value true)
  unfolding header_round
  header_round-colon = ground arith

  header_round-value :
      (c d : ℕ)
      → (c ≢ 0) × (c ≢ b'\r')
      → header_round (scan req key value true) c d ≡ one (scan req key (value ++ c ∷ []) true)
  unfolding header_round
  header_round-value c d h = ground arith

  header_round-end :
      key ≢ []
      → header_round (scan req key value true) b'\r' b'\n'
        ≡ two (scan (add_header req key value) [] [] false)
  unfolding header_round
  header_round-end h = ground (arith, eqs_iff key [])

header_round-stop : (req : Request) → header_round (scan req [] [] false) b'\r' b'\n' ≡ stop
unfolding header_round
header_round-stop req = ground (arith, eqs_iff [] [])

read_headers_one :
    (n c d : ℕ) (rest : Bytes) (s s' : Scan)
    → header_round s c d ≡ one s'
    → read_headers (suc (suc n)) (c ∷ d ∷ rest) s ≡ read_headers (suc n) (d ∷ rest) s'
unfolding read_headers
read_headers_one n c d rest s s' h = rw (h, read_headers)

read_headers_two :
    (n c d : ℕ) (rest : Bytes) (s s' : Scan)
    → header_round s c d ≡ two s'
    → read_headers (suc (suc n)) (c ∷ d ∷ rest) s ≡ read_headers n rest s'
unfolding read_headers
read_headers_two n c d rest s s' h = rw (h, read_headers)

read_headers-key :
    (req : Request) (k r slack key value : Bytes)
    → IsKey k
    → read_headers
        (length (k ++ (b':' ∷ b' ' ∷ r)))
        ((k ++ (b':' ∷ b' ' ∷ r)) ++ slack)
        (scan req key value false)
      ≡ read_headers (length r) (r ++ slack) (scan req (key ++ k) value true)
read_headers-key req [] r slack key value h =
    rw append-nil (read_headers_two _ _ _ _ _ _ (header_round-colon req key value))
read_headers-key req (c ∷ []) r slack key value h =
    read_headers_one _ _ _ _ _ _ (header_round-key req key value c _ h.0)
    ∙ read_headers_two _ _ _ _ _ _ (header_round-colon req (key ++ c ∷ []) value)
read_headers-key req (c ∷ d ∷ k) r slack key value h =
    read_headers_one _ _ _ _ _ _ (header_round-key req key value c _ h.0)
    ∙ read_headers-key req (d ∷ k) r slack (key ++ c ∷ []) value h.1
    ∙ rw append_assoc

read_headers-value :
    (req : Request) (v r slack key value : Bytes)
    → key ≢ []
    → IsLine v
    → read_headers
        (length (v ++ (b'\r' ∷ b'\n' ∷ r)))
        ((v ++ (b'\r' ∷ b'\n' ∷ r)) ++ slack)
        (scan req key value true)
      ≡ read_headers (length r) (r ++ slack) (scan (add_header req key (value ++ v)) [] [] false)
read_headers-value req [] r slack key value ne h =
    rw append-nil (read_headers_two _ _ _ _ _ _ (header_round-end req key value ne))
read_headers-value req (c ∷ []) r slack key value ne h =
    read_headers_one _ _ _ _ _ _ (header_round-value req key value c _ h.0)
    ∙ read_headers_two _ _ _ _ _ _ (header_round-end req key (value ++ c ∷ []) ne)
read_headers-value req (c ∷ d ∷ v) r slack key value ne h =
    read_headers_one _ _ _ _ _ _ (header_round-value req key value c _ h.0)
    ∙ read_headers-value req (d ∷ v) r slack key (value ++ c ∷ []) ne h.1
    ∙ rw append_assoc

-- The fields of a head, each a key and a value, and the blank line.
abbrev pub render_fields : List (Bytes × Bytes) → Bytes
render_fields [] = b'\r' ∷ b'\n' ∷ []
render_fields ((k, v) ∷ fields) = k ++ (b':' ∷ b' ' ∷ (v ++ (b'\r' ∷ b'\n' ∷ render_fields fields)))

abbrev pub IsField : Bytes × Bytes → Type 0
IsField f = (f.0 ≢ []) × IsKey f.0 × IsLine f.1

add_fields : Request → List (Bytes × Bytes) → Request
add_fields req [] = req
add_fields req ((k, v) ∷ fields) = add_fields (add_header req k v) fields

read_headers-fields :
    (req : Request) (fields : List (Bytes × Bytes)) (slack : Bytes)
    → All IsField fields
    → read_headers
        (length (render_fields fields))
        (render_fields fields ++ slack)
        (scan req [] [] false)
      ≡ ok (add_fields req fields)
unfolding add_fields
read_headers-fields req [] slack h = unfold read_headers in rw (header_round-stop req, read_headers)
read_headers-fields req ((k, v) ∷ fields) slack (f, h) =
    read_headers-key req k _ slack [] [] f.1
    ∙ read_headers-value req v _ slack k [] f.0 f.2
    ∙ read_headers-fields (add_header req k v) fields slack h

add_fields-headers :
    (req : Request) (fields : List (Bytes × Bytes))
    → add_fields req fields ≡ record req {
      headers = req.headers ++ map (λ f. header_line f.0 f.1) fields;
      numheaders = req.numheaders + length fields;
    }
unfolding add_fields add_header
add_fields-headers req [] = ground (arith, append-nil req.headers)
add_fields-headers req ((k, v) ∷ fields) = ground (
  arith,
  add_fields-headers (add_header req k v) fields,
  append_assoc req.headers (header_line k v ∷ []) (map (λ f. header_line f.0 f.1) fields),
)

abbrev NameIsWord : Option Bytes → Type 0
NameIsWord none = Unit
NameIsWord (some name) = IsWord name

strmethod-NameIsWord : (m : Method) → NameIsWord (strmethod m)
unfolding strmethod
strmethod-NameIsWord Method.invalid = tt
strmethod-NameIsWord _ = omega arith

-- A request head: the name of the method, a path, the rest of the request line, whose first byte is
-- `v`, and the fields.
abbrev pub render_head : Bytes → Bytes → ℕ → Bytes → List (Bytes × Bytes) → Bytes
render_head name path v version fields =
    name ++ (b' ' ∷ (path ++ (b' ' ∷ v ∷ (version ++ (b'\r' ∷ b'\n' ∷ render_fields fields)))))

-- The request that such a head stands for.
abbrev pub request_of : Method → Bytes → List (Bytes × Bytes) → Request
request_of m path fields = record {
  method = m;
  path = path;
  headers = map (λ f. header_line f.0 f.1) fields;
  numheaders = length fields;
  body = none;
  content_length = 0;
}

checked-of : (m : Method) {name : Bytes} → strmethod m ≡ some name → checked m ≡ ok m
unfolding strmethod
checked-of Method.invalid h = cc
checked-of _ h = refl

from_raw_stages :
    (raw : RawData) {name path : Bytes} {m : Method} {c d e : Cursor}
    → read_method raw.len raw.content [] ≡ ok (name, c)
    → checked (strtomethod name) ≡ ok m
    → read_path c.rounds c.rest [] ≡ ok (path, d)
    → skip_line d.rounds d.rest ≡ ok e
    → from_raw raw ≡ read_headers e.rounds e.rest (start m path)
unfolding from_raw
from_raw_stages raw h1 h2 h3 h4 = rw (h1, ◌>>=◌) (rw (h2, ◌>>=◌) (rw (h3, ◌>>=◌) (rw (h4, ◌>>=◌))))

-- The parser reads back a head that is rendered from a method with a name, a path of words without
-- a space or NUL, a version line and headers whose keys and values are well formed: whatever memory
-- follows the content, the result is the request with that method, that path and every header, in
-- order.
pub from_raw-render_head :
    (m : Method) {name : Bytes} (path : Bytes) (v : ℕ) (version : Bytes)
    (fields : List (Bytes × Bytes)) (slack : Bytes)
    → strmethod m ≡ some name
    → IsWord path
    → IsLine version
    → All IsField fields
    → from_raw (record {
      content = render_head name path v version fields ++ slack;
      len = length (render_head name path v version fields);
    })
      ≡ ok (request_of m path fields)
from_raw-render_head m {name} path v version fields slack named p l f =
    from_raw_stages _ (read_method-append name _ slack [] (rw named at (strmethod-NameIsWord m)))
      (rw (strtomethod-strmethod m name named) (checked-of m named))
      (read_path-append path v _ slack [] p) (skip_line-append version _ slack l)
    ∙ read_headers-fields (new m path) fields slack f
    ∙ ap ok (add_fields-headers (new m path) fields ∙ unfold new in ground arith)
