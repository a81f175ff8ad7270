-- ===== src/Http/Response/Build/Accounting.antt =====
-- The field `lenght` against the bytes that `httpserv_http_response_build` writes.
use httpserv.Prelude.{
  ℕ, ◌+◌, ◌≡◌, refl, List, [], ◌∷◌, ◌++◌, some, none, length, length-append, Bytes, codes, arith,
  Option-cases, inl, inr,
}
use mathlib.Core.Path.{subst}
use httpserv.Http.Status.{strstatus}
use httpserv.Http.Response.{Response, new, push_header, push_body}
use httpserv.Http.Response.Build.{body_bytes}

abbrev pub head_bytes : List Bytes → ℕ
head_bytes [] = 0
head_bytes (h ∷ hs) = length h + 2 + head_bytes hs

-- The counters of a response agree with its contents; `phrase` is the reason phrase of its status.
pub record IsAccounted (phrase : Bytes) (r : Response) : Type 0 where
  pub valid : strstatus r.status ≡ some phrase
  pub counted : r.numheads ≡ length r.headers
  pub body_counted : r.bodylength ≡ length (body_bytes r.body)
  pub total : r.lenght ≡ 17 + length phrase + head_bytes r.headers + r.bodylength

abbrev fresh : ℕ → Bytes → Response
fresh status phrase = record {
  status = status;
  headers = [];
  headers_size = 0;
  body = none;
  numheads = 0;
  bodylength = 0;
  lenght = 9 + 4 + length phrase + 4;
}

pub new-IsAccounted :
    (status : ℕ) {r : Response} → new status ≡ some r → (phrase : Bytes) × IsAccounted phrase r
unfolding new
new-IsAccounted status {r} e = elim (Option-cases (strstatus status)) [
  | inl unknown ↦ let e' : none ≡ some r = rw (unknown, new) at e in cc
  | inr (phrase, known) ↦
      let e' : some (fresh status phrase) ≡ some r = rw (known, new) at e in
      let same : fresh status phrase ≡ r = cc in
      (
        phrase,
        subst (IsAccounted phrase) same
            (record { valid = known; counted = refl; body_counted = refl; total = omega arith }),
      )
]

head_bytes-append :
    (hs : List Bytes) (h : Bytes) → head_bytes (hs ++ h ∷ []) ≡ head_bytes hs + length h + 2
head_bytes-append [] h = omega arith
head_bytes-append (x ∷ hs) h = omega (arith, head_bytes-append hs h)

-- A header that is added to an accounted response leaves it accounted: `lenght` still counts the
-- bytes of its status line, headers, blank line and body.
pub push_header-IsAccounted :
    {phrase : Bytes} (r : Response) (key value : Bytes)
    → IsAccounted phrase r
    → IsAccounted phrase (push_header r key value)
unfolding push_header
push_header-IsAccounted r key value a =
    let line = key ++ (codes ": " ++ value) in
    record {
      valid = a.valid;
      counted = omega (arith, a.counted, length-append r.headers (line ∷ []));
      body_counted = a.body_counted;
      total = omega (
        arith,
        a.total,
        head_bytes-append r.headers line,
        length-append key (codes ": " ++ value),
      );
    }

pub push_body-IsAccounted :
    {phrase : Bytes} (r : Response) (body : Bytes)
    → IsAccounted phrase r
    → IsAccounted phrase (push_body r body (length body))
unfolding push_body
push_body-IsAccounted r body a = record {
  valid = a.valid;
  counted = a.counted;
  body_counted = refl;
  total = omega (arith, a.total);
}
