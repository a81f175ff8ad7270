-- ===== src/Tests/Mains.antt =====
-- An instance for the start of the program.
use httpserv.Prelude.{
  ◌≡◌, ◌≢◌, refl, List, [], ◌∷◌, ◌++◌, Option, some, none, Bytes, codes, if◌then◌else◌,
}
use Prim.Native.Nat.{◌%◌, ◌^◌}
use mathlib.Core.List.{reverse}
use httpserv.Cstring.{eqs, starts_with}
use httpserv.Cstring.Decimal.{decimal, isspace, strtol_size}
use httpserv.Cstring.Strip.{strstripltw}
use httpserv.Net.{returns}
use httpserv.Router.{alias, route_new}
use httpserv.Router.Line.{parse_line}
use httpserv.Router.File.{words_from, words, parse_all}
use httpserv.Config
use httpserv.Jobs.Pool.{Pool, pool_new}
use httpserv.Server.Accept.{loops, ready}
use httpserv.Cweb
use httpserv.Cweb.{defaults, parse_args}
use httpserv.Cweb.Main.{World, detached, as_int, kind_of, runs, main}
use httpserv.Cweb.Main.Starts.{IsPlain, Listens, listening, main-starts}
use httpserv.Tests.Data.{route_to}
use httpserv.Tests.Servers.{sys, openssl}

abbrev conf : Bytes
conf = codes "http.ip = ::\nhttp.port = 8080\n"

abbrev route_conf : Bytes
route_conf = codes "/a=>/b\n"

-- The first entry with a key.
tree_get : List (Bytes × Bytes) → Bytes → Option Bytes
tree_get [] key = none
tree_get ((k, v) ∷ entries) key =
    let rest = tree_get entries key in if eqs k key then some v else rest

abbrev world : World Bytes
world = record {
  file = λ path.
      if eqs path defaults.path
      then some conf
      else if eqs path defaults.rpath
      then some route_conf
      else none;
  tree_get = tree_get;
  sockets = sys;
  openssl = openssl;
  regcomp = λ pattern. some pattern;
  forked = detached;
}

abbrev entries : List (Bytes × Bytes)
entries = (codes "http.ip", codes "::") ∷ (codes "http.port", codes "8080") ∷ []

load_test : httpserv.Config.load (some conf) ≡ httpserv.Config.loaded entries
unfolding httpserv.Config.load isspace httpserv.Config.process_line strstripltw
load_test = refl

parse_args_test :
    parse_args httpserv.Cweb.ready (codes "cweb" ∷ []) defaults ≡ httpserv.Cweb.parsed defaults
unfolding parse_args httpserv.Cweb.round httpserv.Cweb.classify eqs
parse_args_test = refl

file_test : world.file defaults.path ≡ some conf
unfolding eqs
file_test = refl

route_file_test : world.file defaults.rpath ≡ some route_conf
unfolding eqs
route_file_test = refl

some_word_test : words route_conf ≢ []
unfolding words_from isspace
some_word_test = λ e. cc

routes_test :
    parse_all world.regcomp (words route_conf)
    ≡ some (route_to (codes "/a") (codes "/b") alias ∷ [])
unfolding words_from isspace parse_line route_new starts_with httpserv.Cstring.before_nul
routes_test = refl

entries-IsPlain : IsPlain (tree_get entries) (codes "::") (codes "8080")
unfolding tree_get eqs strtol_size
entries-IsPlain = record { has_ip = refl; has_port = refl; is_number = λ e. cc; no_ssl = refl }

sys-Listens :
    Listens sys
      (kind_of (tree_get entries (codes "http.v6")))
      (codes "::")
      (as_int (strtol_size (codes "8080")) % 2 ^ 16)
      3
unfolding tree_get eqs strtol_size
sys-Listens = record { parses = refl; opens = refl; binds = refl; hears = refl }

main-starts_example :
    (pool : Pool) × (pool_new 10 ≡ some pool)
    × (main world (codes "cweb" ∷ [])
        ≡ returns
            (runs (
              loops (
                ready
                  (listening
                    (tree_get entries)
                    (codes "::")
                    (as_int (strtol_size (codes "8080")) % 2 ^ 16)
                    (kind_of (tree_get entries (codes "http.v6")))
                    3
                    (reverse (route_to (codes "/a") (codes "/b") alias ∷ []) ++ []))
                  pool)))
            [])
main-starts_example =
    main-starts world (codes "cweb" ∷ []) (codes "::") (codes "8080") conf route_conf 3
      (route_to (codes "/a") (codes "/b") alias ∷ []) parse_args_test refl file_test load_test
      entries-IsPlain sys-Listens route_file_test some_word_test routes_test

decimal_test : tree_get entries (codes "http.port") ≡ some (decimal 8080)
unfolding tree_get eqs decimal
decimal_test = refl
