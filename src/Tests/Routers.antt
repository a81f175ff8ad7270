-- ===== src/Tests/Routers.antt =====
-- Instances for routers in memory.
use httpserv.Prelude.{ℕ, ◌≡◌, refl, List, [], ◌∷◌, ◌++◌, some, none, Bytes, codes}
use mathlib.Core.List.{reverse}
use httpserv.Cstring.{eqs}
use httpserv.Router.{Route, alias, redirect, lookup}
use httpserv.Router.Memory.{Heap, router_new, load_lines, lookup_in, router_destroy}
use httpserv.Router.Memory.Refines.{
  all_good, router_destroy-load_lines, load_lines-bad, lookup_in-lookup,
}

-- Memory with nothing in it, where an expression is the text that it matches.
abbrev empty_heap : Heap Bytes
empty_heap = record { cells = λ q. none; fresh = 0 }

abbrev two_routes : List (Route Bytes)
two_routes =
    record { pattern = codes "/a"; routepattern = codes "/b"; kind = alias }
    ∷ record { pattern = codes "/c"; routepattern = codes "/d"; kind = redirect }
    ∷ []

router_destroy-load_lines_example :
    (h1 h2 : Heap Bytes) × (load_lines 0 (all_good two_routes) (router_new empty_heap).1 ≡ some h1)
    × (router_destroy 0 h1 ≡ some h2)
    × ((q : ℕ) → h2.cells q ≡ none)
router_destroy-load_lines_example = router_destroy-load_lines empty_heap two_routes (λ q l. refl)

load_lines-bad_example :
    (h1 : Heap Bytes) × (load_lines 0 (all_good two_routes ++ (none ∷ [])) (router_new empty_heap).1
      ≡ some h1)
    × ((q : ℕ) → h1.cells q ≡ none)
    × (lookup_in eqs 0 h1 (codes "/a") ≡ none)
    × (router_destroy 0 h1 ≡ none)
load_lines-bad_example = load_lines-bad eqs empty_heap two_routes [] (codes "/a") (λ q l. refl)

lookup_in-lookup_example :
    (h1 : Heap Bytes) × (load_lines 0 (all_good two_routes) (router_new empty_heap).1 ≡ some h1)
    × (lookup_in eqs 0 h1 (codes "/c")
        ≡ some (lookup eqs (some (reverse two_routes)) (some (codes "/c"))))
lookup_in-lookup_example = lookup_in-lookup eqs empty_heap two_routes (codes "/c") (λ q l. refl)
