-- ===== src/Router/Lookup.antt =====
-- Which route a look-up returns.
use httpserv.Prelude.{
  ◌≡◌, ◌≢◌, ◌↔◌, ap, Bool, true, false, List, [], ◌∷◌, ◌++◌, some, none, Bytes, if◌then◌else◌,
  arith, All, Bool-cases, inl, inr,
}
use mathlib.Core.Path.{subst}
use httpserv.Cstring.{eqs, eqs_iff}
use httpserv.Router.{Route, add_route, first_match, unless_self, lookup}

module _ {Regex : Type 0} (regexec : Regex → Bytes → Bool) where
  -- `r` is the first route that matches the query, and it leads elsewhere.
  pub record Answers (routes : List (Route Regex)) (query : Bytes) (r : Route Regex) : Type 0 where
    pub before : List (Route Regex)
    pub after : List (Route Regex)
    pub splits : routes ≡ before ++ (r ∷ after)
    pub none_before : All (λ (x : Route Regex). regexec x.pattern query ≡ false) before
    pub hit : regexec r.pattern query ≡ true
    pub elsewhere : r.routepattern ≢ query

  first_match-append :
      (before after : List (Route Regex)) (r : Route Regex) (query : Bytes)
      → All (λ (x : Route Regex). regexec x.pattern query ≡ false) before
      → regexec r.pattern query ≡ true
      → first_match regexec (before ++ (r ∷ after)) query ≡ some r
  unfolding first_match
  first_match-append [] after r query n h = rw h
  first_match-append (x ∷ xs) after r query n h = rw n.0 (first_match-append xs after r query n.1 h)

  Answers-lookup :
      (routes : List (Route Regex)) (query : Bytes) (r : Route Regex)
      → Answers routes query r
      → lookup regexec (some routes) (some query) ≡ some r
  unfolding lookup
  Answers-lookup routes query r a =
      rw (a.splits, first_match-append a.before a.after r query a.none_before a.hit)
        (ground (arith, eqs_iff r.routepattern query, a.elsewhere))

  Answers-cons :
      (x r : Route Regex) (routes : List (Route Regex)) (query : Bytes)
      → regexec x.pattern query ≡ false
      → Answers routes query r
      → Answers (x ∷ routes) query r
  Answers-cons x r routes query miss a = record {
    before = x ∷ a.before;
    after = a.after;
    splits = rw a.splits;
    none_before = (miss, a.none_before);
    hit = a.hit;
    elsewhere = a.elsewhere;
  }

  unless_self-some :
      (x : Route Regex) (query : Bytes) (r : Route Regex)
      → unless_self (some x) query ≡ some r
      → (x ≡ r) × (x.routepattern ≢ query)
  unfolding unless_self
  unless_self-some x query r e = elim (Bool-cases (eqs x.routepattern query)) [
    | inl self ↦ let e' : none ≡ some r = rw self at e in cc
    | inr other ↦
        let e' : some x ≡ some r = rw other at e in
        (cc, λ q. ground (arith, (eqs_iff x.routepattern query).1 q))
  ]

  lookup-Answers :
      (routes : List (Route Regex)) (query : Bytes) (r : Route Regex)
      → lookup regexec (some routes) (some query) ≡ some r
      → Answers routes query r
  unfolding lookup
  lookup-Answers [] query r e = cc
  lookup-Answers (x ∷ routes) query r e = elim (Bool-cases (regexec x.pattern query)) [
    | inl hit ↦
        let (same, away) = unless_self-some x query r (rw hit at e) in
        record {
          before = [];
          after = routes;
          splits = ap (λ y. y ∷ routes) same;
          none_before = tt;
          hit = subst (λ y. regexec y.pattern query ≡ true) same hit;
          elsewhere = subst (λ (y : Route Regex). y.routepattern ≢ query) same away;
        }
    | inr miss ↦ Answers-cons x r routes query miss (lookup-Answers routes query r (rw miss at e))
  ]

  -- A look-up returns a route exactly when that route is the first in the list to match the query
  -- and does not lead to the query itself.
  pub lookup_iff :
      (routes : List (Route Regex)) (query : Bytes) (r : Route Regex)
      → (lookup regexec (some routes) (some query) ≡ some r) ↔ Answers routes query r
  lookup_iff routes query r = (lookup-Answers routes query r, Answers-lookup routes query r)

  -- The route that was added last is tried first, and hides what stands behind it also where it
  -- leads to the query itself.
  pub lookup-add_route :
      (routes : List (Route Regex)) (query : Bytes) (r : Route Regex)
      → lookup regexec (add_route (some routes) r) (some query) ≡ (
          if regexec r.pattern query
          then (if eqs r.routepattern query then none else some r)
          else lookup regexec (some routes) (some query))
  unfolding lookup add_route
  lookup-add_route routes query r = ground arith
