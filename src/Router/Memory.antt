-- ===== src/Router/Memory.antt =====
-- The routers of src/router.c in memory: the struct, its mutex, and the linked list of the routes, each
-- with the block of its `routepattern`. `none` as a result is an access to a block that is not there,
-- or its second end. What a compiled expression holds is a part of the route.
pub mod Chain
pub mod Ends
pub mod Refines
use httpserv.Prelude.{
  ℕ, zero, suc, ◌+◌, ◌==◌, Bool, true, false, List, [], ◌∷◌, Option, some, none, Bytes, ◌>>=◌,
  if◌then◌else◌,
}
use httpserv.Router.{Route, unless_self}

-- A block: a route with the address of its text and its link, a router with its mutex and its head, or
-- another block.
pub data Block (Regex : Type 0) : Type 0 where
  route_block : Route Regex → ℕ → Option ℕ → Block Regex
  router_block : ℕ → Option ℕ → Block Regex
  plain_block : Block Regex

abbrev pub Cells : Type 0 → Type 0
Cells Regex = ℕ → Option (Block Regex)

-- The memory; addresses from `fresh` on are unused.
pub record Heap (Regex : Type 0) : Type 0 where
  pub cells : Cells Regex
  pub fresh : ℕ

module _ {Regex : Type 0} where
  abbrev pub update : Cells Regex → ℕ → Block Regex → Cells Regex
  update cells p b q = if p == q then some b else cells q

  abbrev pub remove : Cells Regex → ℕ → Cells Regex
  remove cells p q = if p == q then none else cells q

  -- `malloc`, with the block as it is filled.
  abbrev pub malloc : Block Regex → Heap Regex → Heap Regex
  malloc b h = record { cells = update h.cells h.fresh b; fresh = h.fresh + 1 }

  -- `free`
  unfoldable pub free : ℕ → Heap Regex → Option (Heap Regex)
  free p h = elim (h.cells p) [
    | none ↦ none
    | some b ↦ some (record h { cells = remove h.cells p })
  ]

  -- The members of a router, and of a route, at an address.
  unfoldable pub router_at : Heap Regex → ℕ → Option (ℕ × Option ℕ)
  router_at h p = elim (h.cells p) [
    | some (router_block mutex head) ↦ some (mutex, head)
    | _ ↦ none
  ]

  unfoldable pub route_at : Heap Regex → ℕ → Option (Route Regex × ℕ × Option ℕ)
  route_at h p = elim (h.cells p) [
    | some (route_block r text next) ↦ some (r, text, next)
    | _ ↦ none
  ]

  -- `httpserv_router_new`: the router is at `fresh`, the mutex behind it.
  unfoldable pub router_new : Heap Regex → ℕ × Heap Regex
  router_new h = (h.fresh, malloc plain_block (malloc (router_block (h.fresh + 1) none) h))

  -- `httpserv_route_new`: without a compiled expression the struct is freed again.
  unfoldable pub route_new_in : Option (Route Regex) → Heap Regex → Option ℕ × Heap Regex
  route_new_in none h = (none, record h { fresh = h.fresh + 1 })
  route_new_in (some r) h =
      (some h.fresh, malloc plain_block (malloc (route_block r (h.fresh + 1) none) h))

  -- `httpserv_router_add_route`
  unfoldable pub add_route_in : ℕ → ℕ → Heap Regex → Option (Heap Regex)
  add_route_in router p h = do
    (mutex, head) ← router_at h router
    (r, text, next) ← route_at h p
    some (record h {
      cells =
          update (update h.cells p (route_block r text head)) router (router_block mutex (some p));
    })

  -- The loop of the look-up; `some none` is the end of the list. `fuel` bounds the rounds.
  unfoldable pub match_from :
      (Regex → Bytes → Bool) → ℕ → Option ℕ → Heap Regex → Bytes → Option (Option (Route Regex))
  match_from regexec zero cur h query = none
  match_from regexec (suc fuel) none h query = some none
  match_from regexec (suc fuel) (some p) h query = do
    (r, text, next) ← route_at h p
    let rest = match_from regexec fuel next h query in
        if regexec r.pattern query then some (some r) else rest

  -- `httpserv_router_lookup`, behind its test for NULL.
  unfoldable pub lookup_in :
      (Regex → Bytes → Bool) → ℕ → Heap Regex → Bytes → Option (Option (Route Regex))
  lookup_in regexec router h query = do
    (mutex, head) ← router_at h router
    cur ← match_from regexec (suc h.fresh) head h query
    some (unless_self cur query)

  -- `httpserv_route_destroy`
  unfoldable pub route_destroy : ℕ → Heap Regex → Option (Heap Regex)
  route_destroy p h = do (r, text, next) ← route_at h p; h1 ← free text h; free p h1

  -- The loop of `httpserv_router_destroy`.
  unfoldable pub destroy_routes : ℕ → Option ℕ → Heap Regex → Option (Heap Regex)
  destroy_routes zero cur h = none
  destroy_routes (suc fuel) none h = some h
  destroy_routes (suc fuel) (some p) h = do
    (r, text, next) ← route_at h p
    h1 ← route_destroy p h
    destroy_routes fuel next h1

  -- `httpserv_router_destroy`
  unfoldable pub router_destroy : ℕ → Heap Regex → Option (Heap Regex)
  router_destroy router h = do
    (mutex, head) ← router_at h router
    h1 ← destroy_routes (suc h.fresh) head h
    h2 ← free mutex h1
    free router h2

  -- The loop of `httpserv_router_parse_from_file`, on what the lines give: a line without a route ends
  -- it, with the router destroyed.
  unfoldable pub load_lines : ℕ → List (Option (Route Regex)) → Heap Regex → Option (Heap Regex)
  load_lines router [] h = some h
  load_lines router (none ∷ lines) h = router_destroy router (route_new_in none h).1
  load_lines router (some r ∷ lines) h = do
    h1 ← add_route_in router h.fresh (route_new_in (some r) h).1
    load_lines router lines h1
