-- ===== src/Server/Worker/Exhaust.antt =====
-- The worker on requests that come one behind the other, with the descriptors that the resources keep.
use httpserv.Prelude.{ℕ, ◌+◌, ◌≤◌, ◌≡◌, ap, List, [], ◌∷◌, Option, some, none, arith, All, codes}
use httpserv.Http.Request.{Request, null, get_header}
use httpserv.Http.Request.Parse
use httpserv.Router.{lookup}
use httpserv.Resource.{Resource, Loader, Call, load}
use httpserv.Resource
use httpserv.Resource.Holds.{Ledger, Host, load_in}
use httpserv.Resource.Holds.Ends.{load_in-load}
use httpserv.Resource.Holds.Limit.{served_by, IsMissing, IsLimited, load_in-Grows}
use httpserv.Server.Worker.{
  Event, write, End, returned, crashed, blocked, reading, Env, serve, after_load,
}
use httpserv.Server.Worker.Answers.{serve-found, serve-missing, serve-after_load}

-- 1 for a run that writes a response and a resource.
abbrev pub files_of : List Event → ℕ
files_of (write head ∷ (write file ∷ es)) = 1
files_of es = 0

abbrev pub files_in : End → ℕ
files_in (returned es) = files_of es
files_in crashed = 0
files_in blocked = 0
files_in reading = 0

abbrev pub total_files : List End → ℕ
total_files [] = 0
total_files (e ∷ es) = files_in e + total_files es

module _ {Regex : Type 0} (env : Env Regex) (host : Host) (loader : Loader) where
  -- The worker is given the loader, and the calls on files as they are with the descriptors that are open.
  abbrev pub env_at : Ledger → Env Regex
  env_at l = record env { fs = host l.descriptors; loader = some loader }

  -- The worker on parsed requests without `Content-Length`, one behind the other.
  unfoldable pub serve_all : List Request → Ledger → List End × Ledger
  serve_all [] l = ([], l)
  serve_all (req ∷ reqs) l =
      let rest = serve_all reqs (load_in host loader req.path l).1 in
      (serve (env_at l) (Parse.ok req) [] ∷ rest.0, rest.1)

  -- A request that no route answers, for a file that is not preloaded.
  pub record IsPlain (req : Request) : Type 0 where
    pub bodiless : get_header (some req) (codes "Content-Length") ≡ null
    pub unrouted : lookup env.regexec env.router (some req.path) ≡ none
    pub missing : IsMissing loader req.path

  serve-call :
      (req : Request) (l : Ledger) (c : Call (Option Resource))
      → IsPlain req
      → load (host l.descriptors) (some loader) (some req.path) ≡ some c
      → files_in (serve (env_at l) (Parse.ok req) []) ≡ served_by c
  unfolding after_load
  serve-call req l (Resource.done l' (some res)) p loaded =
      ap files_in (serve-found (env_at l) req [] l' res p.bodiless p.unrouted loaded)
  serve-call req l (Resource.done l' none) p loaded =
      ap files_in (serve-missing (env_at l) req [] l' p.bodiless p.unrouted loaded).1
  serve-call req l Resource.blocked p loaded =
      ap files_in
        (serve-after_load (env_at l) req [] (some Resource.blocked) p.bodiless p.unrouted loaded)
  serve-call req l Resource.crashed p loaded =
      ap files_in
        (serve-after_load (env_at l) req [] (some Resource.crashed) p.bodiless p.unrouted loaded)

  -- On a host where `open` fails while `limit` descriptors are open: when the worker handles parsed
  -- requests one behind the other, none with `Content-Length`, none answered by a route and none
  -- for a resource that was preloaded, the runs that send a file are, with the descriptors that
  -- were open at first, at most as many as the descriptors that are open at the end, and these are
  -- at most `limit`.
  pub serve_all-limit :
      (limit : ℕ) (reqs : List Request) (l : Ledger)
      → IsLimited host limit
      → All IsPlain reqs
      → l.descriptors ≤ limit
      → let runs = serve_all reqs l in
        (total_files runs.0 + l.descriptors ≤ (runs.1).descriptors) × ((runs.1).descriptors ≤ limit)
  unfolding serve_all
  serve_all-limit limit [] l limited plain h = (omega (arith, h), h)
  serve_all-limit limit (req ∷ reqs) l limited plain h =
      let made = load_in host loader req.path l in
      let (grown, below) = load_in-Grows host limit loader req.path l limited (plain.0).missing h in
      let (rest, end) = serve_all-limit limit reqs made.1 limited plain.1 below in
      let one = serve-call req l made.0 plain.0 (load_in-load host loader req.path l) in
      (omega (arith, grown, rest, one), end)
