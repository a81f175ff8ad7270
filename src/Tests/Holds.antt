-- ===== src/Tests/Holds.antt =====
-- Instances for what the resource loader holds.
use httpserv.Prelude.{
  List, ◌+◌, ◌≡◌, ◌≤◌, refl, [], ◌∷◌, none, some, codes, arith, if◌then◌else◌, leb,
}
use httpserv.Cstring.{eqs}
use httpserv.Resource.{Loader, find_resource}
use httpserv.Resource.Holds.{
  Ledger, Host, resource_new_in, loader_destroy, preload_in, alloc, loader_new_in,
}
use httpserv.Resource.Holds.Ends.{preloads, preloads-loader_destroy}
use httpserv.Http.Method.{get}
use httpserv.Http.Request.{Request, get_header}
use httpserv.Http.Request.Parse.RoundTrip.{request_of}
use httpserv.Router.{lookup}
use httpserv.Server.Worker.Exhaust.{total_files, serve_all, serve_all-limit}
use httpserv.Tests.Data.{full, loader, env}

abbrev empty_ledger : Ledger
empty_ledger = record { descriptors = 0; mappings = 0; blocks = 0 }

-- A host that opens two files of five bytes at most.
abbrev two_files : Host
two_files = λ n. record full { open_file = λ p. if leb 2 n then none else some n }

abbrev three_requests : List Request
three_requests =
    request_of get (codes "/a") []
    ∷ request_of get (codes "/d") []
    ∷ request_of get (codes "/c") []
    ∷ []

serve_all-limit_example :
    (total_files (serve_all (env full) two_files loader three_requests empty_ledger).0 + 0
      ≤ (serve_all (env full) two_files loader three_requests empty_ledger).1.descriptors)
    × ((serve_all (env full) two_files loader three_requests empty_ledger).1.descriptors ≤ 2)
unfolding find_resource get_header lookup eqs
serve_all-limit_example =
    serve_all-limit (env full) two_files loader 2 three_requests empty_ledger
      (λ n p h. ground arith)
      (
        record { bodiless = refl; unrouted = refl; missing = refl },
        (
          record { bodiless = refl; unrouted = refl; missing = refl },
          (record { bodiless = refl; unrouted = refl; missing = refl }, tt),
        ),
      )
      (omega arith)

-- The loader behind two preloads.
abbrev two_loaded : Loader
two_loaded = record loader {
  resources =
      record { path = codes "./b"; contents = codes "hello"; size = 5; fd = 1 }
      ∷ record { path = codes "./a"; contents = codes "hello"; size = 5; fd = 0 }
      ∷ [];
}

preloads-loader_destroy_example :
    loader_destroy (some two_loaded) (record { descriptors = 2; mappings = 2; blocks = 7 })
    ≡ record { descriptors = 2; mappings = 2; blocks = 2 }
unfolding preloads preload_in resource_new_in eqs find_resource loader_new_in
preloads-loader_destroy_example =
    preloads-loader_destroy two_files [] (codes ".") (codes "/a" ∷ codes "/b" ∷ []) empty_ledger
      {loader = loader} {loader' = two_loaded} {l1 = alloc 3 empty_ledger}
      {l' = record { descriptors = 2; mappings = 2; blocks = 7 }} refl refl
