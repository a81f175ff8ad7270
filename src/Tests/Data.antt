-- ===== src/Tests/Data.antt =====
-- Test data: a request, a router, a file system and a loader.
use httpserv.Prelude.{
  ℕ, ◌≡◌, refl, Bool, true, false, ◌&&◌, not, List, [], ◌∷◌, ◌++◌, some, none, Bytes, codes, length,
  All, arith,
}
use httpserv.Cstring.{eqs}
use httpserv.Http.Method.{get}
use httpserv.Http.Request.{Request}
use httpserv.Http.Request.Parse.RoundTrip.{IsField, request_of}
use httpserv.Router.{Kind, Route, alias, redirect}
use httpserv.Resource.{FileSystem, Loader}
use httpserv.Server.Reader.{terminated}
use httpserv.Server.Reader.Complete.{Unfinished}
use httpserv.Server.Worker.{Env}
use httpserv.Server.Worker.Failures.{IsHead}

abbrev pub path : Bytes
path = codes "/a"

abbrev pub version : Bytes
version = codes "TTP/1.1"

abbrev pub fields : List (Bytes × Bytes)
fields = (codes "Host", codes "x") ∷ []

pub fields-IsField : All IsField fields
fields-IsField = (((λ e. cc), omega arith, omega arith), tt)

-- The request head but for its last byte, which is LF.
abbrev pub head : Bytes
head = codes "GET /a HTTP/1.1\r\nHost: x\r\n\r"

unfinished_test : Bytes → Bytes → Bool
unfinished_test s [] = true
unfinished_test s (c ∷ u) =
    not (terminated (s ++ c ∷ []) (length s)) && unfinished_test (s ++ c ∷ []) u

Unfinished-sound : (s u : Bytes) → unfinished_test s u ≡ true → Unfinished s u
unfolding unfinished_test
Unfinished-sound s [] h = tt
Unfinished-sound s (c ∷ u) h = (ground arith, Unfinished-sound (s ++ c ∷ []) u (ground arith))

head_test : unfinished_test [] head ≡ true
unfolding unfinished_test terminated
head_test = refl

pub head-IsHead : IsHead head b'\n'
unfolding terminated
head-IsHead = record {
  no_nul = omega arith;
  last_no_nul = omega arith;
  unfinished = Unfinished-sound [] head head_test;
  ends = refl;
}

-- A head with an unknown method.
abbrev pub bad_head : Bytes
bad_head = codes "BREW /a\r\n\r"

bad_head_test : unfinished_test [] bad_head ≡ true
unfolding unfinished_test terminated
bad_head_test = refl

pub bad_head-IsHead : IsHead bad_head b'\n'
unfolding terminated
bad_head-IsHead = record {
  no_nul = omega arith;
  last_no_nul = omega arith;
  unfinished = Unfinished-sound [] bad_head bad_head_test;
  ends = refl;
}

half_test : unfinished_test [] (codes "GET /") ≡ true
unfolding unfinished_test terminated
half_test = refl

pub half-Unfinished : Unfinished [] (codes "GET /")
half-Unfinished = Unfinished-sound [] (codes "GET /") half_test

abbrev pub sample : Request
sample = request_of get path fields

-- Patterns that match just themselves.
abbrev pub literally : Bytes → Bytes → Bool
literally = eqs

abbrev pub route_to : Bytes → Bytes → Kind → Route Bytes
route_to pattern target kind = record { pattern = pattern; routepattern = target; kind = kind }

abbrev pub routes : List (Route Bytes)
routes =
    route_to (codes "/b") (codes "/x") alias ∷ route_to (codes "/old") (codes "/new") redirect ∷ []

-- A file system in which each file holds five bytes, and one with no file.
abbrev pub full : FileSystem
full = record {
  access = λ p. true;
  stat = λ p. some 5;
  open_file = λ p. some 3;
  mmap = λ fd n. some (codes "hello");
}

abbrev pub bare : FileSystem
bare = record { access = λ p. false; stat = λ p. none; open_file = λ p. none; mmap = λ fd n. none }

abbrev pub loader : Loader
loader = record { resources = []; root = codes "."; locked = false }

abbrev pub env : FileSystem → Env Bytes
env fs = record {
  regexec = literally;
  router = some routes;
  fs = fs;
  loader = some loader;
  stale = codes "23";
}

abbrev pub junk : ℕ → ℕ
junk i = 170
