-- ===== src/Http/Request/Headers.antt =====
-- What `httpserv_http_request_get_header` finds among headers that
-- `httpserv_http_request_add_header` wrote.
use httpserv.Prelude.{
  ℕ, ◌+◌, ◌≤◌, ◌≡◌, ◌≢◌, refl, sym, ap, ◌∙◌, true, List, [], ◌∷◌, ◌++◌, arith, if◌then◌else◌,
  Bool-cases, inl, inr, length, length-append, drop, Bytes, All, All-append, append_assoc, codes,
  some,
}
use httpserv.Cstring.{starts_with, starts_with-append, starts_with-eq_true}
use httpserv.Http.Request.{
  Request, new, add_header, set_body, header_line, Found, null, text, past_end, skip, find_header,
  get_header,
}
use httpserv.Http.Method.{Method}

abbrev pub IsHeader : Bytes → Type 0
IsHeader h = (k : Bytes) × (v : Bytes) × (h ≡ header_line k v)

-- The headers are counted, and each consists of a key and a value.
pub record IsWellFormed (req : Request) : Type 0 where
  pub counted : req.numheaders ≡ length req.headers
  pub lines : All IsHeader req.headers

pub new-IsWellFormed : (m : Method) (path : Bytes) → IsWellFormed (new m path)
unfolding new
new-IsWellFormed m path = record { counted = refl; lines = tt }

pub add_header-IsWellFormed :
    (req : Request) (key value : Bytes) → IsWellFormed req → IsWellFormed (add_header req key value)
unfolding add_header
add_header-IsWellFormed req key value w = record {
  counted = omega (arith, w.counted, length-append req.headers (header_line key value ∷ []));
  lines = All-append IsHeader req.headers _ w.lines ((key, value, refl), tt);
}

pub set_body-IsWellFormed :
    (req : Request) (body : Bytes) (len : ℕ)
    → IsWellFormed req
    → IsWellFormed (set_body req body len)
unfolding set_body
set_body-IsWellFormed req body len w = record { counted = w.counted; lines = w.lines }

-- A text that a client may look for: a key with no colon.
abbrev pub NoColon : Bytes → Type 0
NoColon = All λ c. c ≢ b':'

prefix-le : (p k v r : Bytes) → NoColon p → header_line k v ≡ p ++ r → length p ≤ length k
prefix-le [] k v r h e = omega arith
prefix-le (c ∷ p) [] v r h e = ground arith
prefix-le (c ∷ p) (d ∷ k) v r h e = ground (arith, prefix-le p k v r h.1)

length-header_line : (k v : Bytes) → length k + 2 ≤ length (header_line k v)
length-header_line k v = omega (arith, length-append k (codes ": " ++ v))

-- The bytes behind the key and the two bytes after it.
abbrev pub behind : Bytes → Bytes → Bytes
behind key line = drop (length key + 2) line

skip-header :
    (key line : Bytes)
    → NoColon key
    → IsHeader line
    → starts_with line key ≡ true
    → skip (length key + 2) line ≡ text (behind key line)
unfolding skip
skip-header key line h (k, v, e) s =
    let (r, split) = starts_with-eq_true line key s in
    let short = prefix-le key k v r h (sym e ∙ split) in
    ground (arith, length-header_line k v, ap length e)

add-one-length : (hs : List Bytes) (line : Bytes) → length (hs ++ line ∷ []) ≡ length hs + 1
add-one-length hs line = length-append hs (line ∷ [])

-- The header that stands first wins; a later one counts only where none before it matches.
abbrev pub or_else : Found → Found → Found
or_else null f = f
or_else found f = found

abbrev pub match_line : Bytes → Bytes → Found
match_line key line = if starts_with line key then text (behind key line) else null

find_header-append :
    (hs : List Bytes) (line key : Bytes)
    → All IsHeader hs
    → IsHeader line
    → NoColon key
    → find_header (length (hs ++ line ∷ [])) (hs ++ line ∷ []) key
      ≡ or_else (find_header (length hs) hs key) (match_line key line)
unfolding find_header
find_header-append [] line key hs l h = ground (arith, skip-header key line h l)
find_header-append (x ∷ xs) line key (hx, hs) l h =
    ground (arith, skip-header key x h hx, find_header-append xs line key hs l h)

-- Looking a key without a colon up after an insertion into a request with well-formed headers: an
-- earlier match is kept, otherwise the new header is tried.
pub get_header-add_header :
    (req : Request) (k v key : Bytes)
    → IsWellFormed req
    → NoColon key
    → get_header (some (add_header req k v)) key
      ≡ or_else (get_header (some req) key) (match_line key (header_line k v))
unfolding get_header add_header
get_header-add_header req k v key w h =
    rw (w.counted, ← add-one-length req.headers (header_line k v))
      (find_header-append req.headers (header_line k v) key w.lines (k, v, refl) h)

find_header-ne-past_end :
    (hs : List Bytes) (key : Bytes)
    → All IsHeader hs
    → NoColon key
    → find_header (length hs) hs key ≢ past_end
unfolding find_header
find_header-ne-past_end [] key hs h e = cc
find_header-ne-past_end (x ∷ xs) key (hx, hs) h e = elim (Bool-cases (starts_with x key)) [
  | inl hit ↦ ground (arith, skip-header key x h hx)
  | inr miss ↦ find_header-ne-past_end xs key hs h (rw miss at e)
]

-- No pointer behind the end of a header is returned.
pub get_header-ne-past_end :
    (req : Request) (key : Bytes)
    → IsWellFormed req
    → NoColon key
    → get_header (some req) key ≢ past_end
unfolding get_header
get_header-ne-past_end req key w h =
    rw w.counted (find_header-ne-past_end req.headers key w.lines h)

behind-header_line : (k v : Bytes) → behind k (header_line k v) ≡ v
behind-header_line [] v = refl
behind-header_line (c ∷ k) v = ground (arith, behind-header_line k v)

-- A header that was added is found by its key, if no header before it begins with that key.
pub get_header-add_header_self :
    (req : Request) (key v : Bytes)
    → IsWellFormed req
    → NoColon key
    → get_header (some req) key ≡ null
    → get_header (some (add_header req key v)) key ≡ text v
get_header-add_header_self req key v w h missing = rw (
  get_header-add_header req key v key w h,
  missing,
  starts_with-append key (codes ": " ++ v),
  behind-header_line key v,
)

behind-longer : (key ext v : Bytes) (a b : ℕ) → behind key ((key ++ (a ∷ b ∷ ext)) ++ v) ≡ ext ++ v
behind-longer [] ext v a b = refl
behind-longer (c ∷ key) ext v a b = ground (arith, behind-longer key ext v a b)

-- In a request with well-formed headers, where no header answers to a key without a colon, a new
-- header whose key is that key and at least two bytes more is taken for it: what is returned is the
-- rest of the longer key behind one byte and the line behind it, and not a value.
pub get_header-add_header_longer :
    (req : Request) (key ext v : Bytes) (a b : ℕ)
    → IsWellFormed req
    → NoColon key
    → get_header (some req) key ≡ null
    → get_header (some (add_header req (key ++ (a ∷ b ∷ ext)) v)) key ≡ text (header_line ext v)
get_header-add_header_longer req key ext v a b w h missing =
    let hit : starts_with (header_line (key ++ (a ∷ b ∷ ext)) v) key ≡ true =
      rw append_assoc (starts_with-append key _) in
    rw (
      get_header-add_header req (key ++ (a ∷ b ∷ ext)) v key w h,
      missing,
      hit,
      behind-longer key ext (codes ": " ++ v) a b,
    )
