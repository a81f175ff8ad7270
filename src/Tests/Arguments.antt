-- ===== src/Tests/Arguments.antt =====
-- An instance for the loop over the arguments of the program.
use httpserv.Prelude.{◌≡◌, refl, true, [], ◌∷◌, codes}
use httpserv.Cstring.{eqs}
use httpserv.Cstring.Decimal.{strtol_size}
use httpserv.Cweb.{defaults, round, classify, set_threads, parse_args}
use httpserv.Cweb.Threads.{parse_args-threads}

parse_args-threads_example : (record defaults { detach = true }).threads ≡ 10
unfolding parse_args round classify eqs set_threads strtol_size
parse_args-threads_example =
    parse_args-threads (codes "cweb" ∷ codes "-t" ∷ codes "4" ∷ codes "-d" ∷ []) refl
