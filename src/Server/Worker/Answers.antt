-- ===== src/Server/Worker/Answers.antt =====
-- What the worker sends for a request that was parsed.
use httpserv.Prelude.{
  ℕ, zero, suc, ◌+◌, ◌≡◌, ◌≢◌, refl, ap, ◌∙◌, [], ◌∷◌, Option, some, none, Bytes, codes, length,
  arith,
}
use httpserv.Cstring.Decimal.{decimal}
use httpserv.Http.Request.{Request, null, get_header, header_line}
use httpserv.Http.Request.Parse
use httpserv.Http.Status.{strstatus}
use httpserv.Http.Response.{Response, new, push_header, push_body, response_default, server_version}
use httpserv.Http.Response.Build.Accounting.{
  IsAccounted, push_header-IsAccounted, push_body-IsAccounted,
}
use httpserv.Http.Response.Build.Wire.{wire, build_stale, build_complete}
use httpserv.Router.{Kind, route, alias, redirect, Route, lookup}
use httpserv.Resource.{FileSystem, Resource, Loader, Call, load}
use httpserv.Resource
use httpserv.Server.Worker.{
  write, close, returned, Env, fill, with_header, choose, send, deliver, after_load, answer, serve,
}

-- A buffer that the text just fills is sent as it is.
pub fill-length : (s : Bytes) (n : ℕ) → length s ≡ n → fill n s ≡ s
unfolding fill
fill-length [] zero h = refl
fill-length [] (suc n) h = absurd (omega arith)
fill-length (c ∷ s) zero h = absurd (omega arith)
fill-length (c ∷ s) (suc n) h = ap (◌∷◌ c) (fill-length s n (omega arith))

-- The response object that every answer starts from.
abbrev pub ok_response : Response
ok_response = record {
  status = 200;
  headers = [];
  headers_size = 0;
  body = none;
  numheads = 0;
  bodylength = 0;
  lenght = 19;
}

new-ok : new 200 ≡ some ok_response
unfolding new strstatus
new-ok = refl

ok-IsAccounted : IsAccounted (codes "OK") ok_response
unfolding strstatus
ok-IsAccounted = record { valid = refl; counted = refl; body_counted = refl; total = refl }

abbrev pub server_line : Bytes
server_line = header_line (codes "Server") server_version

module _ {Regex : Type 0} (env : Env Regex) (req : Request) (input : Bytes) where
  -- A parsed request without a body is answered from the response object for 200.
  serve-answer :
      get_header (some req) (codes "Content-Length") ≡ null
      → serve env (Parse.ok req) input ≡ answer env req ok_response
  unfolding serve
  serve-answer h = rw (h, new-ok)

  -- Without a route the answer follows from what the loader returns.
  pub serve-after_load :
      (o : Option (Call (Option Resource)))
      → get_header (some req) (codes "Content-Length") ≡ null
      → lookup env.regexec env.router (some req.path) ≡ none
      → load env.fs env.loader (some req.path) ≡ o
      → serve env (Parse.ok req) input ≡ after_load env.stale ok_response o
  unfolding answer choose
  serve-after_load o h none_routed loaded = serve-answer h ∙ rw (none_routed) (rw loaded refl)

  -- A request without `Content-Length` that no route answers, and whose path names a resource, is
  -- answered by the status line 200, the size of the resource in a header spelled `Content-Lenght`,
  -- the `Server` header, the resource and the end of the connection.
  pub serve-found :
      (l : Loader) (res : Resource)
      → get_header (some req) (codes "Content-Length") ≡ null
      → lookup env.regexec env.router (some req.path) ≡ none
      → load env.fs env.loader (some req.path) ≡ some (Resource.done l (some res))
      → serve env (Parse.ok req) input
        ≡ returned (
            write (
              wire 200
                (codes "OK")
                (header_line (codes "Content-Lenght") (decimal res.size) ∷ server_line ∷ [])
                [])
            ∷ write (fill res.size res.contents)
            ∷ close
            ∷ [])
  unfolding answer choose deliver push_header
  serve-found l res h none_routed loaded =
      let r1 = push_header ok_response (codes "Content-Lenght") (decimal res.size) in
      let r2 = push_header r1 (codes "Server") server_version in
      let a2 = push_header-IsAccounted r1 (codes "Server") server_version (
        push_header-IsAccounted ok_response (codes "Content-Lenght") (decimal res.size)
          ok-IsAccounted) in
      let (built, exact) = build_complete r2 a2 tt in
      serve-answer h
      ∙ rw (none_routed) (rw (loaded, after_load) (rw built (rw (fill-length _ _ exact))))

-- The status that a route of the kind `redirect` or `route` sets, and its phrase.
abbrev pub moved_status : Kind → ℕ
moved_status redirect = 301
moved_status _ = 302

abbrev pub moved_phrase : Kind → Bytes
moved_phrase redirect = codes "Moved Permanently"
moved_phrase _ = codes "Found"

moved-strstatus : (k : Kind) → strstatus (moved_status k) ≡ some (moved_phrase k)
unfolding strstatus
moved-strstatus route = refl
moved-strstatus _ = refl

missing-strstatus : strstatus 404 ≡ some (codes "Not Found")
unfolding strstatus
missing-strstatus = refl

-- The response head that a client is to get for a redirection.
abbrev pub moved_head : Kind → Bytes → Bytes
moved_head k target =
    wire (moved_status k) (moved_phrase k)
      (header_line (codes "Location") target ∷ server_line ∷ []) []

-- The page for a missing resource, with the header line that was left in the memory of `body_len`.
abbrev pub missing_page : Bytes → Bytes
missing_page stale =
    wire 404 (codes "Not Found") (header_line (codes "Content-Length") stale ∷ server_line ∷ [])
      response_default

moved_events :
    (k : Kind) (target : Bytes)
    → (n : ℕ) × (send
          (with_header (record ok_response { status = moved_status k }) (codes "Location") target)
          none
        ≡ returned (write (fill n (moved_head k target)) ∷ close ∷ []))
      × (n + length (moved_phrase k) ≡ length (moved_head k target) + 2)
unfolding send push_header
moved_events k target =
    let r1 = push_header ok_response (codes "Location") target in
    let r2 = push_header r1 (codes "Server") server_version in
    let a2 =
      push_header-IsAccounted r1 (codes "Server") server_version
        (push_header-IsAccounted ok_response (codes "Location") target ok-IsAccounted) in
    let (built, short) = build_stale r2 a2 (moved_status k) tt (moved-strstatus k) in
    (r2.lenght, rw built refl, short)

module _ {Regex : Type 0} (env : Env Regex) (req : Request) (input : Bytes) where
  answer-moved :
      (r : Route Regex)
      → lookup env.regexec env.router (some req.path) ≡ some r
      → r.kind ≢ alias
      → answer env req ok_response
        ≡ send
            (with_header
              (record ok_response { status = moved_status r.kind })
              (codes "Location")
              r.routepattern)
            none
  unfolding answer
  answer-moved r routed moved = rw routed (ground arith)

  -- A request without `Content-Length` that a route of a kind other than alias answers: the client
  -- gets the head for 301 or 302 with the target of the route, cut short by as many bytes as the
  -- phrase of that status has more than `OK`, and the connection is closed.
  pub serve-moved :
      (r : Route Regex)
      → get_header (some req) (codes "Content-Length") ≡ null
      → lookup env.regexec env.router (some req.path) ≡ some r
      → r.kind ≢ alias
      → (n : ℕ) × (serve env (Parse.ok req) input
          ≡ returned (write (fill n (moved_head r.kind r.routepattern)) ∷ close ∷ []))
        × (n + length (moved_phrase r.kind) ≡ length (moved_head r.kind r.routepattern) + 2)
  serve-moved r h routed moved =
      let (n, sent, short) = moved_events r.kind r.routepattern in
      (n, serve-answer env req input h ∙ answer-moved r routed moved ∙ sent, short)

  -- A request without `Content-Length` that no route answers, and whose path names no resource: the
  -- client gets the head for 404 and the default page without their last seven bytes, and the
  -- connection is closed.
  pub serve-missing :
      (l : Loader)
      → get_header (some req) (codes "Content-Length") ≡ null
      → lookup env.regexec env.router (some req.path) ≡ none
      → load env.fs env.loader (some req.path) ≡ some (Resource.done l none)
      → (n : ℕ) × (serve env (Parse.ok req) input
          ≡ returned (write (fill n (missing_page env.stale)) ∷ close ∷ []))
        × (n + 7 ≡ length (missing_page env.stale))
  unfolding answer choose deliver push_header push_body
  serve-missing l h none_routed loaded =
      let r0 = push_body ok_response response_default (length response_default) in
      let r1 = push_header r0 (codes "Content-Length") env.stale in
      let r2 = push_header r1 (codes "Server") server_version in
      let a2 = push_header-IsAccounted r1 (codes "Server") server_version (
        push_header-IsAccounted r0 (codes "Content-Length") env.stale
          (push_body-IsAccounted ok_response response_default ok-IsAccounted)) in
      let (built, short) =
        build_stale r2 a2 404 {phrase = codes "Not Found"} (omega arith) missing-strstatus in
      (
        r2.lenght,
        serve-answer env req input h ∙ rw (none_routed) (rw (loaded, after_load) (rw built refl)),
        omega (arith, short),
      )
