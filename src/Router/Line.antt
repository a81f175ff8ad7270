-- ===== src/Router/Line.antt =====
-- `__httpserv_parse_line` of src/router.c, `<pattern>=><routepattern>[|<kind>]`.
use httpserv.Prelude.{
  ◌≡◌, ◌≢◌, true, false, [], ◌∷◌, ◌++◌, ◌==◌, Option, Bytes, codes, if◌then◌else◌, arith, All,
  append-nil, append_assoc,
}
use httpserv.Cstring.{strncmp, is_zero, starts_with, push}
use httpserv.Router.{Kind, route, alias, redirect, Route, route_new}

-- At the `|`: the three comparisons are given 0 as the number of bytes.
unfoldable pub choose_kind : Bytes → Kind
choose_kind rest =
    if is_zero (strncmp rest (codes "route") 0)
    then route
    else if is_zero (strncmp rest (codes "alias") 0)
    then alias
    else if is_zero (strncmp rest (codes "redirect") 0)
    then redirect
    else alias

-- The variables at the end of the loop.
pub record LineParts : Type 0 where
  pub pattern : Bytes
  pub routepattern : Bytes
  pub kind : Kind

-- The rounds in which `pattern_read` is set.
unfoldable pub read_target : Bytes → Bytes → Bytes → LineParts
read_target [] pattern routepattern = record {
  pattern = pattern;
  routepattern = routepattern;
  kind = alias;
}
read_target (c ∷ rest) pattern routepattern = elim (c == b'|') [
  | true ↦ record { pattern = pattern; routepattern = routepattern; kind = choose_kind (c ∷ rest) }
  | false ↦ read_target rest pattern (push routepattern c)
]

-- The rounds before.
unfoldable pub read_pattern : Bytes → Bytes → LineParts
read_pattern [] pattern = record { pattern = pattern; routepattern = []; kind = alias }
read_pattern (c ∷ []) pattern = record { pattern = push pattern c; routepattern = []; kind = alias }
read_pattern (c ∷ d ∷ rest) pattern = elim (starts_with (c ∷ d ∷ rest) (codes "=>")) [
  | true ↦ read_target rest pattern []
  | false ↦ read_pattern (d ∷ rest) (push pattern c)
]

-- `__httpserv_parse_line`
unfoldable pub parse_line : {Regex : Type 0} → (Bytes → Option Regex) → Bytes → Option (Route Regex)
unfolding read_pattern read_target
parse_line regcomp line =
    let parts = read_pattern line [] in
    route_new regcomp parts.pattern parts.routepattern parts.kind

-- Texts that may stand before the `=>` and behind it.
abbrev pub IsPattern : Bytes → Type 0
IsPattern = All λ c. (c ≢ 0) × (c ≢ b'=')

abbrev pub IsTarget : Bytes → Type 0
IsTarget = All λ c. (c ≢ 0) × (c ≢ b'|')

read_target-bar :
    (t rest p acc : Bytes)
    → IsTarget t
    → read_target (t ++ (b'|' ∷ rest)) p acc
      ≡ record { pattern = p; routepattern = acc ++ t; kind = route }
unfolding read_target choose_kind strncmp
read_target-bar [] rest p acc h = rw append-nil
read_target-bar (c ∷ t) rest p acc h =
    ground (arith, read_target-bar t rest p (acc ++ c ∷ []) h.1, append_assoc acc (c ∷ []) t)

read_target_end :
    (t p acc : Bytes)
    → IsTarget t
    → read_target t p acc ≡ record { pattern = p; routepattern = acc ++ t; kind = alias }
unfolding read_target
read_target_end [] p acc h = rw append-nil
read_target_end (c ∷ t) p acc h =
    ground (arith, read_target_end t p (acc ++ c ∷ []) h.1, append_assoc acc (c ∷ []) t)

read_pattern-append :
    (p rest acc : Bytes)
    → IsPattern p
    → read_pattern (p ++ (b'=' ∷ b'>' ∷ rest)) acc ≡ read_target rest (acc ++ p) []
unfolding read_pattern starts_with
read_pattern-append [] rest acc h = rw append-nil
read_pattern-append (c ∷ []) rest acc h = ground arith
read_pattern-append (c ∷ d ∷ p) rest acc h =
    ground (
      arith,
      read_pattern-append (d ∷ p) rest (acc ++ c ∷ []) h.1,
      append_assoc acc (c ∷ []) (d ∷ p),
    )

module _ {Regex : Type 0} (regcomp : Bytes → Option Regex) where
  -- A line `p=>t`, with a pattern without `=`, a target without `|` and no NUL in either, gives an
  -- alias from its pattern to its target.
  pub parse_line-alias :
      (p t : Bytes)
      → IsPattern p
      → IsTarget t
      → parse_line regcomp (p ++ (b'=' ∷ b'>' ∷ t)) ≡ route_new regcomp p t alias
  unfolding parse_line
  parse_line-alias p t hp ht = rw (read_pattern-append p t [] hp, read_target_end t p [] ht)

  -- A line `p=>t|kind`, with a pattern without `=`, a target without `|` and no NUL in either,
  -- gives a route of the kind `route`, whatever kind it names behind the `|`.
  pub parse_line-bar :
      (p t kind : Bytes)
      → IsPattern p
      → IsTarget t
      → parse_line regcomp (p ++ (b'=' ∷ b'>' ∷ (t ++ (b'|' ∷ kind)))) ≡ route_new regcomp p t route
  unfolding parse_line
  parse_line-bar p t kind hp ht =
      rw (read_pattern-append p (t ++ (b'|' ∷ kind)) [] hp, read_target-bar t kind p [] ht)
