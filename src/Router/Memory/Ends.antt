-- ===== src/Router/Memory/Ends.antt =====
-- What is left of a router in memory when it has been destroyed.
use httpserv.Prelude.{
  ℕ, zero, suc, ◌+◌, ◌≤◌, ◌<◌, ◌≡◌, refl, ◌∙◌, false, List, [], ◌∷◌, Option, some, none, arith,
  length, ◌>>=◌,
}
use httpserv.Router.{Route}
use httpserv.Router.Memory.{
  Block, route_block, router_block, plain_block, Cells, update, remove, Heap, free, router_at,
  route_at, router_new, route_new_in, add_route_in, route_destroy, destroy_routes, router_destroy,
}
use httpserv.Router.Memory.Chain.{
  Entry, Chain, Chain-change, Chain-mono, length-Chain, owns, without,
}

module _ {Regex : Type 0} where
  -- No block stands at an unused address.
  abbrev pub IsClean : Heap Regex → Type 0
  IsClean h = (q : ℕ) → h.fresh ≤ q → h.cells q ≡ none

  -- The router at `b`, made in memory that held `cells`, with the routes of the entries.
  pub record IsRouter (cells : Cells Regex) (b : ℕ) (es : List (Entry Regex)) (h : Heap Regex)
      : Type 0 where
    pub head : Option ℕ
    pub struct : h.cells b ≡ some (router_block (b + 1) head)
    pub mutex : h.cells (b + 1) ≡ some plain_block
    pub chain : Chain h.cells (b + 2) h.fresh head es
    pub above : b + 2 ≤ h.fresh
    pub kept : (q : ℕ) → q < b → h.cells q ≡ cells q
    pub unowned : (q : ℕ) → b + 2 ≤ q → owns es q ≡ false → h.cells q ≡ none

  route_destroy_lem :
      (h : Heap Regex) (p : ℕ) (r : Route Regex) (next : Option ℕ)
      → h.cells p ≡ some (route_block r (p + 1) next)
      → h.cells (p + 1) ≡ some plain_block
      → route_destroy p h ≡ some (record h { cells = remove (remove h.cells (p + 1)) p })
  unfolding route_destroy route_at free
  route_destroy_lem h p r next here text = ground arith

  pub route_at_lem :
      (h : Heap Regex) (p : ℕ) (r : Route Regex) (text : ℕ) (next : Option ℕ)
      → h.cells p ≡ some (route_block r text next)
      → route_at h p ≡ some (r, text, next)
  unfolding route_at
  route_at_lem h p r text next here = ground arith

  -- The loop frees the blocks of the list, each once.
  destroy_routes-Chain :
      (fuel : ℕ) (h : Heap Regex) (lo hi : ℕ) (p : Option ℕ) (es : List (Entry Regex))
      → length es < fuel
      → Chain h.cells lo hi p es
      → (h' : Heap Regex) × (destroy_routes fuel p h ≡ some h')
        × ((q : ℕ) → h'.cells q ≡ without h.cells es q)
  unfolding destroy_routes
  destroy_routes-Chain zero h lo hi p es f c = absurd (omega (arith, f))
  destroy_routes-Chain (suc fuel) h lo hi p [] f c = (h, rw (c, destroy_routes) refl, λ q. refl)
  destroy_routes-Chain (suc fuel) h lo hi p (e ∷ es) f (ge, lt, start, text, (next, here, rest)) =
      let h1 : Heap Regex = record h { cells = remove (remove h.cells (e.at + 1)) e.at } in
      let (h2, done, left) =
        destroy_routes-Chain fuel h1 lo e.at next es (omega (arith, f))
          (Chain-change h.cells h1.cells lo e.at next es (λ q g k. ground arith) rest) in
      let freed = route_destroy_lem h e.at e.route next here text in
      let read = route_at_lem h e.at e.route (e.at + 1) next here in
      (
        h2,
        rw (start, destroy_routes) (rw (read, ◌>>=◌) (rw (freed, ◌>>=◌) done)),
        λ q. left q ∙ ground arith,
      )

  pub owns-below :
      (cells : Cells Regex) (lo hi : ℕ) (p : Option ℕ) (es : List (Entry Regex)) (q : ℕ)
      → q < lo
      → Chain cells lo hi p es
      → owns es q ≡ false
  owns-below cells lo hi p [] q h c = refl
  owns-below cells lo hi p (e ∷ es) q h (ge, lt, start, text, (next, here, rest)) =
      ground (arith, owns-below cells lo e.at next es q h rest)

  free_lem :
      (h : Heap Regex) (p : ℕ) (b : Block Regex)
      → h.cells p ≡ some b
      → free p h ≡ some (record h { cells = remove h.cells p })
  unfolding free
  free_lem h p b here = ground arith

  pub router_at_lem :
      (h : Heap Regex) (p mutex : ℕ) (head : Option ℕ)
      → h.cells p ≡ some (router_block mutex head)
      → router_at h p ≡ some (mutex, head)
  unfolding router_at
  router_at_lem h p mutex head here = ground arith

  pub router_at-none : (h : Heap Regex) (p : ℕ) → h.cells p ≡ none → router_at h p ≡ none
  unfolding router_at
  router_at-none h p gone = ground arith

  -- The memory is as it was before the router was made.
  abbrev pub Restores : Cells Regex → ℕ → Heap Regex → Type 0
  Restores cells b h =
      ((q : ℕ) → q < b → h.cells q ≡ cells q) × ((q : ℕ) → b ≤ q → h.cells q ≡ none)

  pub router_destroy-IsRouter :
      (cells : Cells Regex) (b : ℕ) (es : List (Entry Regex)) (h : Heap Regex)
      → IsRouter cells b es h
      → (h' : Heap Regex) × (router_destroy b h ≡ some h') × Restores cells b h'
  unfolding router_destroy
  router_destroy-IsRouter cells b es h k =
      let (h1, done, left) =
        destroy_routes-Chain (suc h.fresh) h (b + 2) h.fresh k.head es
          (omega (arith, length-Chain h.cells (b + 2) h.fresh k.head es k.chain)) k.chain in
      let below =
        λ (q : ℕ) (l : q < b + 2). owns-below h.cells (b + 2) h.fresh k.head es q l k.chain in
      let h2 : Heap Regex = record h1 { cells = remove h1.cells (b + 1) } in
      let h3 : Heap Regex = record h2 { cells = remove h2.cells b } in
      let first =
        free_lem h1 (b + 1) plain_block (ground (arith, left (b + 1), below (b + 1), k.mutex)) in
      let second =
        free_lem h2 b (router_block (b + 1) k.head) (ground (arith, left b, below b, k.struct)) in
      let read = router_at_lem h b (b + 1) k.head k.struct in
      (
        h3,
        rw (read, ◌>>=◌) (rw (done, ◌>>=◌) (rw (first, ◌>>=◌) second)),
        (
          (λ q l. ground (arith, left q, below q, k.kept q)),
          (λ q l. ground (arith, left q, below q, k.unowned q)),
        ),
      )

  pub router_new-IsRouter :
      (h : Heap Regex)
      → IsClean h
      → ((router_new h).0 ≡ h.fresh) × IsRouter h.cells h.fresh [] (router_new h).1
  unfolding router_new
  router_new-IsRouter h clean = (
    refl,
    record {
      head = none;
      struct = ground arith;
      mutex = ground arith;
      chain = refl;
      above = omega arith;
      kept = λ q l. ground arith;
      unowned = λ q l o. ground (arith, clean q);
    },
  )

  -- A route that was not made leaves no block.
  pub no_route-IsRouter :
      (cells : Cells Regex) (b : ℕ) (es : List (Entry Regex)) (h : Heap Regex)
      → IsRouter cells b es h
      → IsRouter cells b es (route_new_in none h).1
  unfolding route_new_in
  no_route-IsRouter cells b es h k = record {
    head = k.head;
    struct = k.struct;
    mutex = k.mutex;
    chain = Chain-mono h.cells (b + 2) h.fresh (h.fresh + 1) k.head es (omega arith) k.chain;
    above = omega (arith, k.above);
    kept = k.kept;
    unowned = k.unowned;
  }

  -- The memory behind the addition of a new route.
  abbrev pub added : ℕ → Route Regex → Option ℕ → Heap Regex → Heap Regex
  added b r head h = record {
    cells =
        update
          (update
            (update (update h.cells h.fresh (route_block r (h.fresh + 1) none)) (h.fresh + 1)
              plain_block)
            h.fresh (route_block r (h.fresh + 1) head))
          b (router_block (b + 1) (some h.fresh));
    fresh = h.fresh + 1 + 1;
  }

  pub add_route_in-added :
      (b : ℕ) (r : Route Regex) (head : Option ℕ) (h : Heap Regex)
      → b < h.fresh
      → h.cells b ≡ some (router_block (b + 1) head)
      → add_route_in b h.fresh (route_new_in (some r) h).1 ≡ some (added b r head h)
  unfolding add_route_in route_new_in
  add_route_in-added b r head h l here =
      let made : Heap Regex = (route_new_in (some r) h).1 in
      let router = router_at_lem made b (b + 1) head (ground (arith, here)) in
      let route = route_at_lem made h.fresh r (h.fresh + 1) none (ground arith) in
      rw (router, ◌>>=◌) (rw (route, ◌>>=◌) refl)

  pub add_route-IsRouter :
      (cells : Cells Regex) (b : ℕ) (es : List (Entry Regex)) (h : Heap Regex) (r : Route Regex)
      → (k : IsRouter cells b es h)
      → IsRouter cells b (record { route = r; at = h.fresh } ∷ es) (added b r k.head h)
  add_route-IsRouter cells b es h r k = record {
    head = some h.fresh;
    struct = ground arith;
    mutex = ground (arith, k.above, k.mutex);
    chain = (
      k.above,
      omega arith,
      refl,
      ground (arith, k.above),
      (
        k.head,
        ground (arith, k.above),
        Chain-change h.cells (added b r k.head h).cells (b + 2) h.fresh k.head es
            (λ q l m. ground arith) k.chain,
      ),
    );
    above = omega (arith, k.above);
    kept = λ q l. ground (arith, k.above, k.kept q);
    unowned = λ q l o. ground (arith, k.above, k.unowned q l);
  }
