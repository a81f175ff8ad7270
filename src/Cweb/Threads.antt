-- ===== src/Cweb/Threads.antt =====
-- The number of threads behind the loop over the arguments of cweb.c.
use httpserv.Prelude.{
  ℕ, some, ◌≡◌, refl, sym, ap, true, List, [], ◌∷◌, codes, Bytes, arith, Bool-cases, inl, inr,
}
use httpserv.Cstring.{eqs, eqs_iff}
use httpserv.Cstring.Decimal.{strtol_size, isspace}
use mathlib.Core.Path.{subst}
use httpserv.Cweb.{
  Options, defaults, is_option, Argument, help, version, threads, classify, set_threads, Waiting,
  ready, path_value, rpath_value, logpath_value, Round, exit, go, exits, parsed, Parsed, round,
  parse_args,
}

is_option-text :
    (arg short long : Bytes)
    → is_option arg short long ≡ true
    → (P : Bytes → Type 0) → P short
    → P long
    → P arg
is_option-text arg short long e P p q = elim (Bool-cases (eqs arg short)) [
  | inl first ↦ subst P (sym ((eqs_iff arg short).0 first)) p
  | inr differs ↦
      let e' : eqs arg long ≡ true = rw differs at e in subst P (sym ((eqs_iff arg long).0 e')) q
]

threads_text :
    (arg : Bytes) → classify arg ≡ threads → is_option arg (codes "-t") (codes "--threads") ≡ true
unfolding classify
threads_text arg e = ground arith

set_threads_option : (o : Options) (arg : Bytes) → classify arg ≡ threads → set_threads o arg ≡ o
set_threads_option o arg e =
    is_option-text arg (codes "-t") (codes "--threads") (threads_text arg e)
      (λ arg. set_threads o arg ≡ o) (unfold set_threads strtol_size isspace in refl)
      (unfold set_threads strtol_size isspace in refl)

-- The round and the loop keep the number of threads.
abbrev Keeps : ℕ → Round → Type 0
Keeps n exit = Unit
Keeps n (go w o) = o.threads ≡ n

round-Keeps :
    (a : Argument) (arg : Bytes) (o : Options) → classify arg ≡ a → Keeps o.threads (round a arg o)
unfolding round
round-Keeps threads arg o e = ap (λ (o : Options). o.threads) (set_threads_option o arg e)
round-Keeps help arg o e = tt
round-Keeps version arg o e = tt
round-Keeps _ arg o e = refl

abbrev Threads : ℕ → Parsed → Type 0
Threads n exits = Unit
Threads n (parsed o) = o.threads ≡ n

parse_args-Threads :
    (w : Waiting) (argv : List Bytes) (o : Options) → Threads o.threads (parse_args w argv o)
unfolding parse_args
parse_args-Threads w [] o = refl
parse_args-Threads ready (arg ∷ argv) o =
    (elim (round (classify arg) arg o)
        as (λ r.
          Keeps o.threads r
          → Threads o.threads (elim r [ exit ↦ exits | go w o' ↦ parse_args w argv o' ])) [
            | exit ↦ λ k. tt
            | go w o' ↦
                λ k. subst (λ n. Threads n (parse_args w argv o')) k (parse_args-Threads w argv o')
          ])
      (round-Keeps (classify arg) arg o refl)
parse_args-Threads path_value (value ∷ argv) o =
    parse_args-Threads ready argv (record o { path = value })
parse_args-Threads rpath_value (value ∷ argv) o =
    parse_args-Threads ready argv (record o { rpath = value })
parse_args-Threads logpath_value (value ∷ argv) o =
    parse_args-Threads ready argv (record o { logpath = some value })

-- Whatever the arguments are, if the loop over them ends without an exit the number of threads is
-- still the default 10, since the option for it reads its own text.
pub parse_args-threads :
    (argv : List Bytes) {o : Options} → parse_args ready argv defaults ≡ parsed o → o.threads ≡ 10
parse_args-threads argv e = subst (Threads 10) e (parse_args-Threads ready argv defaults)
