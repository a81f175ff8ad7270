-- ===== src/Server/Worker/Closes.antt =====
-- How a run of the worker ends for its connection.
use httpserv.Prelude.{
  ℕ, ◌≡◌, refl, true, Bool-cases, inl, inr, List, [], ◌∷◌, ◌++◌, ◌==◌, Option, some, none, Bytes,
}
use mathlib.Core.Path.{subst}
use mathlib.Core.List.{map}
use httpserv.Http.Request.{Request, Found, null, text, past_end, set_body}
use httpserv.Http.Request.Parse.{Outcome, fault, ok}
use httpserv.Http.Request.Parse
use httpserv.Http.Response.{Response, new}
use httpserv.Http.Response.Build.{Built}
use httpserv.Router.{Route, lookup}
use httpserv.Resource.{Resource, Call, done, blocked, crashed}
use httpserv.Server.Reader.{Reader, initial, read_head}
use httpserv.Server.Worker.{
  Event, write, close, End, returned, Env, send_built, send, deliver, after_load, Choice, choose,
  fill, answer_path, answer, answer_new, after_length, after_header, serve, after_head, worker,
}

-- A run that returns has written some texts and then closed the connection.
abbrev pub IsClosed : End → Type 0
IsClosed (returned es) = (texts : List Bytes) × (es ≡ map write texts ++ close ∷ [])
IsClosed _ = Unit

send_built-IsClosed :
    (raw : Option Built) (res : Option Resource) → IsClosed (returned (send_built raw res))
unfolding send_built
send_built-IsClosed none res = ([], refl)
send_built-IsClosed (some raw) none = (_ ∷ [], refl)
send_built-IsClosed (some raw) (some r) = (_ ∷ _ ∷ [], refl)

send-IsClosed : (resp : Response) (res : Option Resource) → IsClosed (send resp res)
unfolding send
send-IsClosed resp res = send_built-IsClosed _ res

deliver-IsClosed :
    (stale : Bytes) (resp : Response) (res : Option Resource) → IsClosed (deliver stale resp res)
unfolding deliver
deliver-IsClosed stale resp none = send-IsClosed _ none
deliver-IsClosed stale resp (some res) = send-IsClosed _ (some res)

after_load-IsClosed :
    (stale : Bytes) (resp : Response) (call : Option (Call (Option Resource)))
    → IsClosed (after_load stale resp call)
unfolding after_load
after_load-IsClosed stale resp none = deliver-IsClosed stale resp none
after_load-IsClosed stale resp (some (done l res)) = deliver-IsClosed stale resp res
after_load-IsClosed stale resp (some blocked) = tt
after_load-IsClosed stale resp (some crashed) = tt

module _ {Regex : Type 0} (env : Env Regex) where
  answer_path-IsClosed :
      (r : Option (Route Regex)) (choice : Choice) (path : Option Bytes)
      → IsClosed (answer_path env r choice path)
  unfolding answer_path
  answer_path-IsClosed r choice none = send-IsClosed _ none
  answer_path-IsClosed r choice (some path) = after_load-IsClosed env.stale choice.resp _

  answer_new-IsClosed :
      (req : Request) (resp : Option Response) → IsClosed (answer_new env req resp)
  unfolding answer_new answer
  answer_new-IsClosed req none = tt
  answer_new-IsClosed req (some resp) =
      let r = lookup env.regexec env.router (some req.path) in
      answer_path-IsClosed r (choose r req.path resp) (choose r req.path resp).path

  after_length-IsClosed :
      (req : Request) (clen : ℕ) (input : Bytes) → IsClosed (after_length env req clen input)
  unfolding after_length
  after_length-IsClosed req clen input = elim (Bool-cases (clen == 0)) [
    | inl e ↦ rw e ([], refl)
    | inr e ↦ rw e (answer_new-IsClosed (set_body req (fill clen input) clen) (new 200))
  ]

  after_header-IsClosed :
      (req : Request) (header : Found) (input : Bytes)
      → IsClosed (after_header env req header input)
  unfolding after_header
  after_header-IsClosed req null input = answer_new-IsClosed req (new 200)
  after_header-IsClosed req (text value) input = after_length-IsClosed req _ input
  after_header-IsClosed req past_end input = tt

  serve-IsClosed : (o : Outcome Request) (input : Bytes) → IsClosed (serve env o input)
  unfolding serve
  serve-IsClosed fault input = tt
  serve-IsClosed Parse.null input = tt
  serve-IsClosed (ok req) input = after_header-IsClosed req _ input

  after_head-IsClosed : (r : Option Reader) → IsClosed (after_head env r)
  unfolding after_head
  after_head-IsClosed none = tt
  after_head-IsClosed (some r) = serve-IsClosed _ r.input

  -- Whenever the worker returns behind a handshake that succeeded, or without TLS, it has written
  -- some texts and then closed the connection, once.
  pub worker-IsClosed :
      (junk : ℕ → ℕ) (fuel : ℕ) (input : Bytes) {es : List Event}
      → worker env junk true fuel input ≡ returned es
      → (texts : List Bytes) × (es ≡ map write texts ++ close ∷ [])
  unfolding worker
  worker-IsClosed junk fuel input e =
      subst IsClosed e (after_head-IsClosed (read_head junk fuel (initial input)))
