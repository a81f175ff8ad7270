-- ===== src/Router.antt =====
-- src/router.c. The regular expressions of the C library are a parameter: the type `Regex` of compiled
-- ones, `regcomp`, which may fail, and `regexec`, which tells whether a text matches. The list of
-- routes starts at `head`. Each function holds the mutex from its first access to its last, so it is
-- one step.
pub mod Line
pub mod Lookup
pub mod File
pub mod Memory
use httpserv.Prelude.{Bool, true, false, List, [], ◌∷◌, Option, some, none, Bytes, if◌then◌else◌}
use httpserv.Cstring.{eqs}

-- `httpserv_route_kind_t`
pub data Kind : Type 0 where
  route alias redirect : Kind

-- `httpserv_route_t`, without the link.
pub record Route (Regex : Type 0) : Type 0 where
  pub pattern : Regex
  pub routepattern : Bytes
  pub kind : Kind

module _ {Regex : Type 0} where
  -- `httpserv_route_new`
  unfoldable pub route_new : (Bytes → Option Regex) → Bytes → Bytes → Kind → Option (Route Regex)
  route_new regcomp pattern routepattern kind = elim (regcomp pattern) [
    | none ↦ none
    | some regex ↦ some (record { pattern = regex; routepattern = routepattern; kind = kind })
  ]

  -- `httpserv_router_add_route`; a router is its routes, `none` is NULL.
  unfoldable pub add_route : Option (List (Route Regex)) → Route Regex → Option (List (Route Regex))
  add_route none r = none
  add_route (some routes) r = some (r ∷ routes)

  -- The loop of the look-up: the first route whose pattern matches.
  unfoldable pub first_match :
      (Regex → Bytes → Bool) → List (Route Regex) → Bytes → Option (Route Regex)
  first_match regexec [] query = none
  first_match regexec (cur ∷ next) query =
      if regexec cur.pattern query then some cur else first_match regexec next query

  -- A route to the query itself is dropped.
  unfoldable pub unless_self : Option (Route Regex) → Bytes → Option (Route Regex)
  unless_self none query = none
  unless_self (some cur) query = if eqs cur.routepattern query then none else some cur

  -- `httpserv_router_lookup`
  unfoldable pub lookup :
      (Regex → Bytes → Bool) → Option (List (Route Regex)) → Option Bytes → Option (Route Regex)
  unfolding first_match unless_self
  lookup regexec (some routes) (some query) = unless_self (first_match regexec routes query) query
  lookup regexec router query = none
