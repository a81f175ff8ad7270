-- ===== src/Router/Memory/Chain.antt =====
-- Lists of routes in memory, at addresses that fall along the list.
use httpserv.Prelude.{
  ℕ, ◌+◌, ◌≤◌, ◌<◌, ◌≡◌, ◌∙◌, ◌==◌, Bool, true, false, List, [], ◌∷◌, Option, some, none, arith,
  length, if◌then◌else◌,
}
use mathlib.Core.List.{map}
use httpserv.Router.{Route}
use httpserv.Router.Memory.{route_block, plain_block, Cells}

-- A route of the list, with its address; its text is behind it.
pub record Entry (Regex : Type 0) : Type 0 where
  pub route : Route Regex
  pub at : ℕ

module _ {Regex : Type 0} where
  abbrev pub routes : List (Entry Regex) → List (Route Regex)
  routes = map λ (e : Entry Regex). e.route

  -- The list that starts at `p` holds the entries, each with its text, at addresses from `lo` on and
  -- below `hi`.
  abbrev pub Chain : Cells Regex → ℕ → ℕ → Option ℕ → List (Entry Regex) → Type 0
  Chain cells lo hi p [] = p ≡ none
  Chain cells lo hi p (e ∷ es) =
      (lo ≤ e.at)
      × (e.at + 2 ≤ hi)
      × (p ≡ some e.at)
      × (cells (e.at + 1) ≡ some plain_block)
      × ((next : Option ℕ) × (cells e.at ≡ some (route_block e.route (e.at + 1) next))
          × Chain cells lo e.at next es)

  -- A block outside the range may change.
  pub Chain-change :
      (cells cells' : Cells Regex) (lo hi : ℕ) (p : Option ℕ) (es : List (Entry Regex))
      → ((q : ℕ) → lo ≤ q → q < hi → cells' q ≡ cells q)
      → Chain cells lo hi p es
      → Chain cells' lo hi p es
  Chain-change cells cells' lo hi p [] same c = c
  Chain-change cells cells' lo hi p (e ∷ es) same (ge, lt, start, text, (next, here, rest)) = (
    ge,
    lt,
    start,
    same (e.at + 1) (omega arith) (omega arith) ∙ text,
    (
      next,
      same e.at ge (omega arith) ∙ here,
      Chain-change cells cells' lo e.at next es (λ q h k. same q h (omega arith)) rest,
    ),
  )

  pub Chain-mono :
      (cells : Cells Regex) (lo hi hi' : ℕ) (p : Option ℕ) (es : List (Entry Regex))
      → hi ≤ hi'
      → Chain cells lo hi p es
      → Chain cells lo hi' p es
  Chain-mono cells lo hi hi' p [] h c = c
  Chain-mono cells lo hi hi' p (e ∷ es) h (ge, lt, start, text, rest) =
      (ge, omega arith, start, text, rest)

  -- A list is shorter than its range.
  pub length-Chain :
      (cells : Cells Regex) (lo hi : ℕ) (p : Option ℕ) (es : List (Entry Regex))
      → Chain cells lo hi p es
      → length es ≤ hi
  length-Chain cells lo hi p [] c = omega arith
  length-Chain cells lo hi p (e ∷ es) (ge, lt, start, text, (next, here, rest)) =
      omega (arith, length-Chain cells lo e.at next es rest)

  -- Whether an address is one of the list.
  abbrev pub owns : List (Entry Regex) → ℕ → Bool
  owns [] q = false
  owns (e ∷ es) q = if e.at == q then true else if e.at + 1 == q then true else owns es q

  -- The memory without the blocks of the list.
  abbrev pub without : Cells Regex → List (Entry Regex) → Cells Regex
  without cells es q = if owns es q then none else cells q
