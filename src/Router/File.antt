-- ===== src/Router/File.antt =====
-- `httpserv_router_parse_from_file` of src/router.c. `fscanf(f, "%ms\n", &line)` reads the words of the
-- file, one a call; `free(line)` behind the loop releases the last of them.
use httpserv.Prelude.{
  ◌≡◌, ◌≢◌, refl, ◌∙◌, true, false, List, [], ◌∷◌, ◌++◌, Option, some, none, Bytes, All, append-nil,
  append_assoc, Option-cases, inl, inr, arith,
}
use mathlib.Core.List.{reverse, reverse-cons}
use httpserv.Cstring.{before_nul}
use httpserv.Cstring.Decimal.{isspace}
use httpserv.Router.{Route}
use httpserv.Router.Line.{parse_line}

-- A word that ends, if there is one: a line for the loop up to a NUL in it, since the loop of
-- `__httpserv_parse_line` stops at `strlen(line)`.
abbrev pub flush : Bytes → List Bytes → List Bytes
flush [] rest = rest
flush (c ∷ word) rest = before_nul (c ∷ word) ∷ rest

-- The words of a text, behind the part `word` of the first one.
unfoldable pub words_from : Bytes → Bytes → List Bytes
words_from word [] = flush word []
words_from word (c ∷ s) = elim (isspace c) [
  | true ↦ flush word (words_from [] s)
  | false ↦ words_from (word ++ c ∷ []) s
]

abbrev pub words : Bytes → List Bytes
words text = words_from [] text

-- What a call returns: NULL, a router, a router that has been destroyed, or an empty router after
-- a pointer that was never set has been freed.
pub data FileResult (Regex : Type 0) : Type 0 where
  not_opened dangling wild_free : FileResult Regex
  loaded : List (Route Regex) → FileResult Regex

module _ {Regex : Type 0} where
  abbrev pub cons_route : Route Regex → Option (List (Route Regex)) → Option (List (Route Regex))
  cons_route r none = none
  cons_route r (some rs) = some (r ∷ rs)

  abbrev pub outcome_of : Option (List (Route Regex)) → List (Route Regex) → FileResult Regex
  outcome_of none routes = dangling
  outcome_of (some rs) routes = loaded (reverse rs ++ routes)

  outcome_of-cons :
      (r : Route Regex) (o : Option (List (Route Regex))) (routes : List (Route Regex))
      → outcome_of o (r ∷ routes) ≡ outcome_of (cons_route r o) routes
  outcome_of-cons r none routes = refl
  outcome_of-cons r (some rs) routes = rw (reverse-cons r rs, append_assoc)

module _ {Regex : Type 0} (regcomp : Bytes → Option Regex) where
  -- The loop, with the routes added so far.
  unfoldable pub load_routes : List Bytes → List (Route Regex) → FileResult Regex
  load_routes [] routes = loaded routes
  load_routes (line ∷ lines) routes = elim (parse_line regcomp line) [
    | none ↦ dangling
    | some r ↦ load_routes lines (r ∷ routes)
  ]

  -- Without a word `line` is not set.
  pub load_words : List Bytes → FileResult Regex
  load_words [] = wild_free
  load_words (line ∷ lines) = load_routes (line ∷ lines) []

  -- `httpserv_router_parse_from_file`, on the text of the file if it can be opened.
  unfoldable pub parse_from_file : Option Bytes → FileResult Regex
  unfolding load_words
  parse_from_file none = not_opened
  parse_from_file (some text) = load_words (words text)

  -- The routes of all lines, in order, if each line gives one.
  abbrev pub parse_all : List Bytes → Option (List (Route Regex))
  parse_all [] = some []
  parse_all (line ∷ lines) = elim (parse_line regcomp line) [
    | none ↦ none
    | some r ↦ cons_route r (parse_all lines)
  ]

  load_routes-parse_all :
      (lines : List Bytes) (routes : List (Route Regex))
      → load_routes lines routes ≡ outcome_of (parse_all lines) routes
  unfolding load_routes
  load_routes-parse_all [] routes = refl
  load_routes-parse_all (line ∷ lines) routes = elim (Option-cases (parse_line regcomp line)) [
    | inl bad ↦ rw (bad, load_routes, parse_all)
    | inr (r, good) ↦
        rw (good, load_routes, parse_all)
          (load_routes-parse_all lines (r ∷ routes) ∙ outcome_of-cons r (parse_all lines) routes)
  ]

  load_words-parse_all :
      (lines : List Bytes) → lines ≢ [] → load_words lines ≡ outcome_of (parse_all lines) []
  unfolding load_words
  load_words-parse_all [] h = absurd (h refl)
  load_words-parse_all (line ∷ lines) h = load_routes-parse_all (line ∷ lines) []

  -- For a file with at least one word: if every line gives a route, the router has them all, the
  -- last line first; if some line gives none, the router is destroyed and returned nevertheless.
  pub parse_from_file-words :
      (text : Bytes)
      → words text ≢ []
      → parse_from_file (some text) ≡ outcome_of (parse_all (words text)) []
  unfolding parse_from_file
  parse_from_file-words text some_word = load_words-parse_all (words text) some_word

-- A line of the file that is one word.
abbrev pub IsOneWord : Bytes → Type 0
IsOneWord line = (line ≢ []) × All (λ c. (isspace c ≡ false) × (c ≢ 0)) line

abbrev pub unlines : List Bytes → Bytes
unlines [] = []
unlines (line ∷ lines) = line ++ (b'\n' ∷ unlines lines)

before_nul-word :
    (line : Bytes) → All (λ c. (isspace c ≡ false) × (c ≢ 0)) line → before_nul line ≡ line
unfolding before_nul
before_nul-word [] h = refl
before_nul-word (c ∷ line) h = ground (arith, before_nul-word line h.1)

words_from-line :
    (line rest word : Bytes)
    → All (λ c. (isspace c ≡ false) × (c ≢ 0)) line
    → words_from word (line ++ (b'\n' ∷ rest)) ≡ flush (word ++ line) (words rest)
unfolding words_from isspace
words_from-line [] rest word h = rw append-nil
words_from-line (c ∷ line) rest word h =
    rw (h.0.0, words_from) (words_from-line line rest (word ++ c ∷ []) h.1 ∙ rw append_assoc)

-- The lines of a file are its words, if no line is empty or holds white space or a NUL.
pub words-unlines : (lines : List Bytes) → All IsOneWord lines → words (unlines lines) ≡ lines
unfolding words_from
words-unlines [] h = refl
words-unlines ([] ∷ lines) h = absurd (h.0.0 refl)
words-unlines ((c ∷ line) ∷ lines) h =
    words_from-line (c ∷ line) (unlines lines) [] h.0.1
    ∙ rw (before_nul-word (c ∷ line) h.0.1, words-unlines lines h.1)
