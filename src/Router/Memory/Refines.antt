-- ===== src/Router/Memory/Refines.antt =====
-- Routers in memory that are loaded, looked up in and destroyed.
use httpserv.Prelude.{
  ℕ, zero, suc, ◌+◌, ◌<◌, ◌≡◌, refl, sym, ◌∙◌, Bool, List, [], ◌∷◌, ◌++◌, Option, some, none, arith,
  length, Bytes, Bool-cases, inl, inr, ltb, ◌>>=◌, append-nil, append_assoc,
}
use mathlib.Core.List.{map, reverse, reverse-cons}
use httpserv.Router.{Route, first_match, lookup}
use httpserv.Router.Memory.{
  Cells, Heap, router_new, route_new_in, router_destroy, match_from, lookup_in, load_lines,
}
use httpserv.Router.Memory.Chain.{Entry, routes, Chain, length-Chain}
use httpserv.Router.Memory.Ends.{
  IsClean, IsRouter, route_at_lem, router_at_lem, router_at-none, Restores, router_destroy-IsRouter,
  router_new-IsRouter, no_route-IsRouter, added, add_route_in-added, add_route-IsRouter,
}

module _ {Regex : Type 0} where
  Restores-same :
      (h h' : Heap Regex)
      → IsClean h
      → Restores h.cells h.fresh h'
      → (q : ℕ) → h'.cells q ≡ h.cells q
  Restores-same h h' clean (below, above) q = elim (Bool-cases (ltb q h.fresh)) [
    | inl lt ↦ below q (ground arith)
    | inr ge ↦ above q (ground arith) ∙ sym (clean q (ground arith))
  ]

  -- Lines that all give a route.
  abbrev pub all_good : List (Route Regex) → List (Option (Route Regex))
  all_good = map (λ (r : Route Regex). some r)

  -- A router with the routes of a list in front of those of the entries.
  abbrev pub Loaded :
      Cells Regex → ℕ → List (Entry Regex) → List (Route Regex) → Heap Regex → Type 0
  Loaded cells b es rs h =
      (fs : List (Entry Regex)) × IsRouter cells b fs h × (routes fs ≡ reverse rs ++ routes es)

  -- Lines that give routes, and the lines behind them.
  load_lines-good :
      (cells : Cells Regex) (b : ℕ) (es : List (Entry Regex)) (h : Heap Regex)
      (rs : List (Route Regex)) (rest : List (Option (Route Regex)))
      → IsRouter cells b es h
      → (h' : Heap Regex) × (load_lines b (all_good rs ++ rest) h ≡ load_lines b rest h')
        × Loaded cells b es rs h'
  unfolding load_lines
  load_lines-good cells b es h [] rest k = (h, refl, (es, k, refl))
  load_lines-good cells b es h (r ∷ rs) rest k =
      let (h', loads, (fs, good, same)) =
        load_lines-good cells b (record { route = r; at = h.fresh } ∷ es) (added b r k.head h) rs
          rest (add_route-IsRouter cells b es h r k) in
      let step = add_route_in-added b r k.head h (omega (arith, k.above)) k.struct in
      (h', rw (step, ◌>>=◌) loads, (fs, good, rw (reverse-cons r rs, append_assoc) same))

  -- A new router with the routes of lines that all give one.
  load_lines-new :
      (h : Heap Regex) (rs : List (Route Regex))
      → IsClean h
      → (h' : Heap Regex) × (load_lines h.fresh (all_good rs) (router_new h).1 ≡ some h')
        × Loaded h.cells h.fresh [] rs h'
  unfolding load_lines
  load_lines-new h rs clean =
      let (same, made) = router_new-IsRouter h clean in
      let (h', loads, loaded) = load_lines-good h.cells h.fresh [] (router_new h).1 rs [] made in
      (h', rw append-nil at loads, loaded)

  -- In memory with no block at an unused address: a new router takes the routes of any list, its
  -- destruction accesses and frees only blocks that are there, and it leaves the memory as it was
  -- before the router was made.
  pub router_destroy-load_lines :
      (h : Heap Regex) (rs : List (Route Regex))
      → IsClean h
      → (h1 h2 : Heap Regex) × (load_lines h.fresh (all_good rs) (router_new h).1 ≡ some h1)
        × (router_destroy h.fresh h1 ≡ some h2)
        × ((q : ℕ) → h2.cells q ≡ h.cells q)
  unfolding load_lines
  router_destroy-load_lines h rs clean =
      let (h1, loads, (fs, good, same)) = load_lines-new h rs clean in
      let (h2, done, restored) = router_destroy-IsRouter h.cells h.fresh fs h1 good in
      (h1, h2, loads, done, Restores-same h h2 clean restored)

  -- In memory with no block at an unused address: when a line behind any lines that give a route
  -- gives none, the loop of the route file ends with all blocks of the router freed; a look-up in
  -- the router that is returned nevertheless, and a second destruction, access a block that was
  -- freed.
  pub load_lines-bad :
      (regexec : Regex → Bytes → Bool) (h : Heap Regex) (rs : List (Route Regex))
      (rest : List (Option (Route Regex))) (query : Bytes)
      → IsClean h
      → (h1 : Heap Regex) × (load_lines h.fresh (all_good rs ++ (none ∷ rest)) (router_new h).1
          ≡ some h1)
        × ((q : ℕ) → h1.cells q ≡ h.cells q)
        × (lookup_in regexec h.fresh h1 query ≡ none)
        × (router_destroy h.fresh h1 ≡ none)
  unfolding load_lines lookup_in router_destroy
  load_lines-bad regexec h rs rest query clean =
      let (same, made) = router_new-IsRouter h clean in
      let (h1, loads, (fs, good, listed)) =
        load_lines-good h.cells h.fresh [] (router_new h).1 rs (none ∷ rest) made in
      let (h2, done, restored) =
        router_destroy-IsRouter h.cells h.fresh fs (route_new_in none h1).1
          (no_route-IsRouter h.cells h.fresh fs h1 good) in
      let gone = router_at-none h2 h.fresh (restored.1 h.fresh (omega arith)) in
      (
        h2,
        loads ∙ done,
        Restores-same h h2 clean restored,
        rw (gone, ◌>>=◌) refl,
        rw (gone, ◌>>=◌) refl,
      )

  match_from-Chain :
      (regexec : Regex → Bytes → Bool) (fuel : ℕ) (h : Heap Regex) (lo hi : ℕ) (p : Option ℕ)
      (es : List (Entry Regex)) (query : Bytes)
      → length es < fuel
      → Chain h.cells lo hi p es
      → match_from regexec fuel p h query ≡ some (first_match regexec (routes es) query)
  unfolding match_from first_match
  match_from-Chain regexec zero h lo hi p es query f c = absurd (omega (arith, f))
  match_from-Chain regexec (suc fuel) h lo hi p [] query f c = rw (c, match_from) refl
  match_from-Chain regexec (suc fuel) h lo hi p (e ∷ es) query f
        (ge, lt, start, text, (next, here, rest)) =
      let read = route_at_lem h e.at e.route (e.at + 1) next here in
      let later = match_from-Chain regexec fuel h lo e.at next es query (omega (arith, f)) rest in
      rw (start, match_from) (rw (read, ◌>>=◌) (ground (arith, later)))

  -- In memory with no block at an unused address: in a new router with the routes of any list, a
  -- look-up along the linked list ends within the rounds given, accesses only blocks that are
  -- there, and returns what the look-up in the list of the routes, the last one first, returns.
  pub lookup_in-lookup :
      (regexec : Regex → Bytes → Bool) (h : Heap Regex) (rs : List (Route Regex)) (query : Bytes)
      → IsClean h
      → (h1 : Heap Regex) × (load_lines h.fresh (all_good rs) (router_new h).1 ≡ some h1)
        × (lookup_in regexec h.fresh h1 query
            ≡ some (lookup regexec (some (reverse rs)) (some query)))
  unfolding load_lines lookup_in lookup
  lookup_in-lookup regexec h rs query clean =
      let (h1, loads, (fs, good, same)) = load_lines-new h rs clean in
      let read = router_at_lem h1 h.fresh (h.fresh + 1) good.head good.struct in
      let found =
        match_from-Chain regexec (suc h1.fresh) h1 (h.fresh + 2) h1.fresh good.head fs query
          (omega (arith, length-Chain h1.cells (h.fresh + 2) h1.fresh good.head fs good.chain))
          good.chain in
      (h1, loads, rw (read, ◌>>=◌) (rw (found, ◌>>=◌) (rw (same, append-nil) refl)))
