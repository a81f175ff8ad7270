-- ===== src/Cweb.antt =====
-- `main` of cweb.c: the loop over the arguments, with `argv` as the list of the strings.
pub mod Threads
pub mod Main
pub mod Signal
use httpserv.Prelude.{
  ℕ, Bool, true, false, ◌||◌, List, [], ◌∷◌, ◌==◌, Option, some, none, Bytes, codes, if◌then◌else◌,
}
use Prim.Native.Nat.{◌%◌, ◌^◌}
use httpserv.Cstring.{eqs}
use httpserv.Cstring.Decimal.{strtol_size}

-- The variables that the loop sets.
pub record Options : Type 0 where
  pub path : Bytes
  pub rpath : Bytes
  pub logpath : Option Bytes
  pub threads : ℕ
  pub detach : Bool

abbrev pub defaults : Options
defaults = record {
  path = codes "/etc/cweb/cweb.conf";
  rpath = codes "/etc/cweb/routes.conf";
  logpath = none;
  threads = 10;
  detach = false;
}

-- `streq(arg, s) || streq(arg, l)`
abbrev pub is_option : Bytes → Bytes → Bytes → Bool
is_option arg short long = eqs arg short || eqs arg long

-- What an argument is taken for, by the chain of tests.
pub data Argument : Type 0 where
  help version file threads detach logfile routefile other : Argument

unfoldable pub classify : Bytes → Argument
classify arg =
    if is_option arg (codes "-h") (codes "--help")
    then help
    else if is_option arg (codes "-v") (codes "--version")
    then version
    else if is_option arg (codes "-f") (codes "--file")
    then file
    else if is_option arg (codes "-t") (codes "--threads")
    then threads
    else if is_option arg (codes "-d") (codes "--detach")
    then detach
    else if is_option arg (codes "-l") (codes "--logfile")
    then logfile
    else if is_option arg (codes "-r") (codes "--routefile")
    then routefile
    else other

-- The branch for the number of threads, which is read from the argument `arg` itself. The conversion
-- to `int` keeps the low 32 bits.
unfoldable pub set_threads : Options → Bytes → Options
set_threads o arg =
    let parsed = strtol_size arg % 2 ^ 32 in
    if parsed == 0 then o else record o { threads = parsed }

-- Whether the next argument is a value, and for which option.
pub data Waiting : Type 0 where
  ready path_value rpath_value logpath_value : Waiting

-- What a round does: exit after a text is printed, or go on.
pub data Round : Type 0 where
  exit : Round
  go : Waiting → Options → Round

-- A round at the argument `arg`, which was taken for `a`.
unfoldable pub round : Argument → Bytes → Options → Round
round help arg o = exit
round version arg o = exit
round file arg o = go path_value o
round threads arg o = go ready (set_threads o arg)
round detach arg o = go ready (record o { detach = true })
round logfile arg o = go logpath_value o
round routefile arg o = go rpath_value o
round other arg o = go ready o

-- The statements `i++; path = argv[i];` and their like.
abbrev pub store : Waiting → Bytes → Options → Options
store ready value o = o
store path_value value o = record o { path = value }
store rpath_value value o = record o { rpath = value }
store logpath_value value o = record o { logpath = some value }

-- How the loop ends.
pub data Parsed : Type 0 where
  exits : Parsed
  parsed : Options → Parsed

-- The loop. An option that needs a value and is the last argument changes nothing.
unfoldable pub parse_args : Waiting → List Bytes → Options → Parsed
parse_args w [] o = parsed o
parse_args ready (arg ∷ argv) o = elim (round (classify arg) arg o) [
  | exit ↦ exits
  | go w o' ↦ parse_args w argv o'
]
parse_args path_value (value ∷ argv) o = parse_args ready argv (store path_value value o)
parse_args rpath_value (value ∷ argv) o = parse_args ready argv (store rpath_value value o)
parse_args logpath_value (value ∷ argv) o = parse_args ready argv (store logpath_value value o)
