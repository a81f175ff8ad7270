-- ===== src/Server/Worker.antt =====
-- `httpserv_httpserver_worker` of src/net/server.c, with the connector of src/net/connector.c, whose
-- writes and close are the events of a run. The connection is open, and an allocation succeeds.
pub mod Answers
pub mod Closes
pub mod Connection
pub mod Failures
pub mod Exhaust
use httpserv.Prelude.{
  ℕ, zero, suc, ◌+◌, Bool, true, false, not, ◌&&◌, List, [], ◌∷◌, ◌++◌, ◌==◌, Option, some, none,
  Bytes, codes, if◌then◌else◌, length,
}
use httpserv.Cstring.Decimal.{decimal, strtol_size}
use httpserv.Http.Request.{Request, Found, null, text, past_end, set_body, get_header}
use httpserv.Http.Request.Parse.{RawData, Outcome, fault, from_raw}
use httpserv.Http.Request.Parse
use httpserv.Http.Response.{
  Response, new, add_header, push_header, push_body, response_default, server_version,
}
use httpserv.Http.Response
use httpserv.Http.Response.Build.{Built, build}
use httpserv.Router.{Kind, route, alias, redirect, Route, lookup}
use httpserv.Resource.{FileSystem, Resource, Loader, Call, load}
use httpserv.Resource
use httpserv.Server.Reader.{Reader, initial, read_head}

pub data Event : Type 0 where
  write : Bytes → Event
  close : Event

-- How a run ends: it returns, it reads through NULL or behind a header, it waits for the mutex of the
-- loader for ever, or it is still in the loop that reads the head.
pub data End : Type 0 where
  returned : List Event → End
  crashed blocked reading : End

-- What the worker is given: the router, the loader, and what the memory of `body_len` holds before
-- anything is written there.
pub record Env (Regex : Type 0) : Type 0 where
  pub regexec : Regex → Bytes → Bool
  pub router : Option (List (Route Regex))
  pub fs : FileSystem
  pub loader : Option Loader
  pub stale : Bytes

-- The `n` bytes of a buffer that was cleared before the text was written.
unfoldable pub fill : ℕ → Bytes → Bytes
fill zero s = []
fill (suc n) [] = 0 ∷ fill n []
fill (suc n) (c ∷ s) = c ∷ fill n s

-- `httpserv_http_response_add_header` with arguments that are not NULL.
abbrev pub with_header : Response → Bytes → Bytes → Response
with_header resp key value = push_header resp key value

-- The switch over the kind of the route: the path to load, and the status of the response.
pub record Choice : Type 0 where
  pub path : Option Bytes
  pub resp : Response

module _ {Regex : Type 0} where
  unfoldable pub choose : Option (Route Regex) → Bytes → Response → Choice
  choose none path resp = record { path = some path; resp = resp }
  choose (some r) path resp = elim r.kind [
    | alias ↦ record { path = some r.routepattern; resp = resp }
    | redirect ↦ record { path = none; resp = record resp { status = 301 } }
    | route ↦ record { path = none; resp = record resp { status = 302 } }
  ]

  -- The header `Location`, of the route that gave no path.
  unfoldable pub locate : Option (Route Regex) → Response → Response
  locate none resp = resp
  locate (some r) resp = with_header resp (codes "Location") r.routepattern

-- The end of a run: the `Server` header, the response, the resource and the end of the connection.
unfoldable pub send_built : Option Built → Option Resource → List Event
send_built none res = close ∷ []
send_built (some raw) none = write (fill raw.len raw.text) ∷ close ∷ []
send_built (some raw) (some res) =
    write (fill raw.len raw.text) ∷ write (fill res.size res.contents) ∷ close ∷ []

unfoldable pub send : Response → Option Resource → End
unfolding send_built
send resp res = returned (send_built (build (with_header resp (codes "Server") server_version)) res)

-- The status 404 with the default page. `body_len` is passed on as it was allocated.
unfoldable pub not_found : Bytes → Response → Response
not_found stale resp =
    with_header
      (push_body (record resp { status = 404 }) response_default (length response_default))
      (codes "Content-Length") stale

unfoldable pub found : Response → Resource → Response
found resp res = with_header resp (codes "Content-Lenght") (decimal res.size)

unfoldable pub deliver : Bytes → Response → Option Resource → End
unfolding send not_found found
deliver stale resp none = send (not_found stale resp) none
deliver stale resp (some res) = send (found resp res) (some res)

-- The loader's answer; without a loader there is no resource.
unfoldable pub after_load : Bytes → Response → Option (Call (Option Resource)) → End
unfolding deliver
after_load stale resp none = deliver stale resp none
after_load stale resp (some (Resource.done l res)) = deliver stale resp res
after_load stale resp (some Resource.blocked) = blocked
after_load stale resp (some Resource.crashed) = crashed

module _ {Regex : Type 0} (env : Env Regex) where
  unfoldable pub answer_path : Option (Route Regex) → Choice → Option Bytes → End
  unfolding after_load locate send
  answer_path r choice none = send (locate r choice.resp) none
  answer_path r choice (some path) =
      after_load env.stale choice.resp (load env.fs env.loader (some path))

  -- The part for a request with its response object.
  unfoldable pub answer : Request → Response → End
  unfolding answer_path choose
  answer req resp =
      let r = lookup env.regexec env.router (some req.path) in
      let choice = choose r req.path resp in answer_path r choice choice.path

  pub answer_new : Request → Option Response → End
  unfolding answer
  answer_new req none = crashed
  answer_new req (some resp) = answer req resp

  -- The header `Content-Length`: 0 ends the connection. The body is read into the request, and not
  -- looked at again.
  pub after_length : Request → ℕ → Bytes → End
  unfolding answer_new
  after_length req clen input =
      if clen == 0
      then returned (close ∷ [])
      else answer_new (set_body req (fill clen input) clen) (new 200)

  pub after_header : Request → Found → Bytes → End
  unfolding after_length
  after_header req null input = answer_new req (new 200)
  after_header req (text value) input = after_length req (strtol_size value) input
  after_header req past_end input = crashed

  -- The request that was parsed. With NULL the worker goes on to read `req->path`.
  unfoldable pub serve : Outcome Request → Bytes → End
  unfolding after_header
  serve fault input = crashed
  serve Parse.null input = crashed
  serve (Parse.ok req) input =
      after_header req (get_header (some req) (codes "Content-Length")) input

  pub after_head : Option Reader → End
  unfolding serve
  after_head none = reading
  after_head (some r) = serve (from_raw (record { content = r.content; len = r.len })) r.input

  -- The worker on a stream, with fuel for the loop that reads the head. On a connection with TLS
  -- whose handshake fails it returns at once.
  unfoldable pub worker : (ℕ → ℕ) → Bool → ℕ → Bytes → End
  unfolding after_head
  worker junk handshake fuel input =
      if handshake then after_head (read_head junk fuel (initial input)) else returned []
