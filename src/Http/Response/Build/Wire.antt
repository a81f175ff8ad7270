-- ===== src/Http/Response/Build/Wire.antt =====
-- The bytes that `httpserv_http_response_build` writes, and whether they fit.
use httpserv.Prelude.{
  ℕ, ◌+◌, ◌≤◌, ◌<◌, ◌≡◌, ◌≢◌, refl, List, [], ◌∷◌, ◌++◌, some, none, false, length, length-append,
  Bytes, codes, arith, All,
}
use Prim.Native.Nat.{◌*◌, ◌/◌, ◌%◌}
use httpserv.Cstring.Decimal.{decimal_three}
use httpserv.Http.Status.{strstatus, status_valid}
use httpserv.Http.Status.Table.{strstatus_well_formed}
use httpserv.Http.Response.{Response, push_header}
use httpserv.Http.Response.Build.{until_nul, header_lines, build, body_bytes, crlf}
use httpserv.Http.Response.Build.Accounting.{IsAccounted, head_bytes}

header_lines-head_bytes : (hs : List Bytes) → length (header_lines (length hs) hs) ≡ head_bytes hs
unfolding header_lines
header_lines-head_bytes [] = refl
header_lines-head_bytes (h ∷ hs) = omega (
  arith,
  length-append (h ++ crlf) (header_lines (length hs) hs),
  length-append h crlf,
  header_lines-head_bytes hs,
)

-- A body that holds no NUL.
abbrev pub NoNul : Bytes → Type 0
NoNul = All λ c. c ≢ 0

until_nul-NoNul : (s : Bytes) → NoNul s → until_nul (length s) s ≡ s
unfolding until_nul
until_nul-NoNul [] h = refl
until_nul-NoNul (c ∷ s) h = ground (arith, until_nul-NoNul s h.1)

-- What the client is to get: the status line, the headers, a blank line and the body.
abbrev pub wire : ℕ → Bytes → List Bytes → Bytes → Bytes
wire status phrase headers body =
    codes "HTTP/1.1 "
    ++ (((b'0' + status / 100) ∷ (b'0' + status / 10 % 10) ∷ (b'0' + status % 10) ∷ [])
        ++ (codes " "
            ++ (phrase
                ++ (crlf ++ (header_lines (length headers) headers ++ (crlf ++ (body ++ [])))))))

length-wire :
    (status : ℕ) (phrase : Bytes) (headers : List Bytes) (body : Bytes)
    → length (wire status phrase headers body)
      ≡ 17 + length phrase + head_bytes headers + length body
length-wire status phrase headers body =
    let block = header_lines (length headers) headers in
    omega (
      arith,
      length-append phrase (crlf ++ (block ++ (crlf ++ (body ++ [])))),
      length-append block (crlf ++ (body ++ [])),
      length-append body [],
      header_lines-head_bytes headers,
    )

-- A response that is accounted under one status, with no NUL in its body, and then given another
-- status with a phrase: the text that is built has the phrase of the new status, while the buffer
-- and `len` are those for the old one.
pub build_stale :
    {old : Bytes} (r : Response) (a : IsAccounted old r) (status : ℕ) {phrase : Bytes}
    → NoNul (body_bytes r.body)
    → strstatus status ≡ some phrase
    → (build (record r { status = status })
        ≡ some (record {
          text = wire status phrase r.headers (body_bytes r.body);
          size = r.lenght;
          len = r.lenght;
        }))
      × (r.lenght + length phrase
          ≡ length (wire status phrase r.headers (body_bytes r.body)) + length old)
unfolding build
build_stale r a status {phrase} h known =
    let (lo, hi, _) = strstatus_well_formed status known in
    (
      rw
          (
            known,
            build,
            decimal_three status lo hi,
            a.counted,
            a.body_counted,
            until_nul-NoNul (body_bytes r.body) h,
          )
          refl,
      omega
          (arith, length-wire status phrase r.headers (body_bytes r.body), a.total, a.body_counted),
    )

-- A response that is accounted under its status, and whose body holds no NUL, is built into its
-- status line, headers, blank line and body, and `len` is the length of just that.
pub build_complete :
    {phrase : Bytes} (r : Response) (a : IsAccounted phrase r)
    → NoNul (body_bytes r.body)
    → (build r
        ≡ some (record {
          text = wire r.status phrase r.headers (body_bytes r.body);
          size = r.lenght;
          len = r.lenght;
        }))
      × (length (wire r.status phrase r.headers (body_bytes r.body)) ≡ r.lenght)
build_complete r a h =
    let (built, exact) = build_stale r a r.status h a.valid in (built, omega (arith, exact))

-- A response whose status has no reason phrase is not built.
pub build-none : (r : Response) → status_valid r.status ≡ false → build r ≡ none
unfolding build status_valid
build-none r h = ground arith

-- After a header is added, the array of headers is smaller than its pointers, if a pointer has at
-- least two bytes.
pub push_header_overflow :
    (r : Response) (key value : Bytes) (pointer : ℕ)
    → 2 ≤ pointer
    → (push_header r key value).headers_size < pointer * (push_header r key value).numheads
unfolding push_header
push_header_overflow r key value pointer h = grind arith
