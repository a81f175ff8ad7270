-- ===== src/Cweb/Main.antt =====
-- `main` of cweb.c from the arguments to the call of `httpserv_httpserver_run`, and `handle_sigint`.
-- What files hold, the tree of the submodule libtree, the sockets, OpenSSL, the regular expressions
-- and the results of `fork` are parameters.
pub mod Starts
pub mod Port
use httpserv.Prelude.{
  ℕ, Bool, true, false, ◌==◌, List, [], ◌∷◌, Option, some, none, Bytes, codes, if◌then◌else◌,
}
use Prim.Native.Nat.{◌%◌, ◌^◌}
use httpserv.Cstring.Decimal.{strtol_size}
use httpserv.Net.{Run, undefined, returns, pure, ◌>>=◌}
use httpserv.Net.Tls.{OpenSsl}
use httpserv.Router.{Route}
use httpserv.Router.File.{FileResult, parse_from_file}
use httpserv.Router.File
use httpserv.Resource.{loader_new}
use httpserv.Config.{LoadResult}
use httpserv.Config
use httpserv.Server.Life.{
  AddrKind, ipv4, ipv6, Sockets, Server, server_new, use_ssl, add_router, add_resource_loader,
}
use httpserv.Server.Accept.{Started, server_run}
use httpserv.Cweb.{Options, Parsed, ready, defaults, parse_args}
use httpserv.Cweb

-- How the two calls of `fork` go: the first one fails, or the process is the parent; or it is the
-- child, and the second one fails, or it is the process between, or the one that stays.
pub data Forked : Type 0 where
  first_failed parent second_failed between detached : Forked

-- The result of `main` where a process ends at the calls of `fork`.
abbrev pub fork_result : Forked → Option ℕ
fork_result first_failed = some 0
fork_result parent = some 0
fork_result second_failed = some 1
fork_result between = some 0
fork_result detached = none

-- The parameters.
pub record World (Regex : Type 0) : Type 0 where
  pub file : Bytes → Option Bytes
  pub tree_get : List (Bytes × Bytes) → Bytes → Option Bytes
  pub sockets : Sockets
  pub openssl : OpenSsl
  pub regcomp : Bytes → Option Regex
  pub forked : Forked

-- What the configuration sets before the server is made.
pub record Settings : Type 0 where
  pub logpath : Bytes
  pub ip : Bytes
  pub port : ℕ
  pub akind : AddrKind

-- An `int` from `strtol`: the low 32 bits.
abbrev pub as_int : ℕ → ℕ
as_int n = n % 2 ^ 32

abbrev pub get_or {ℓ} : {A : Type ℓ} → A → Option A → A
get_or a none = a
get_or a (some b) = b

abbrev pub kind_of : Option Bytes → AddrKind
kind_of none = ipv4
kind_of (some value) = ipv6

abbrev pub log_path : Option Bytes → Option Bytes → Bytes
log_path (some path) value = path
log_path none value = get_or (codes "/var/log/cweb/cweb.log") value

-- The part of `main` that reads the entries `http.ip` and `http.port`; `none` is `exit(EXIT_FAILURE)`.
unfoldable pub with_port : (Bytes → Option Bytes) → Options → Bytes → Bytes → Option Settings
with_port node o ip port =
    if as_int (strtol_size port) == 0
    then none
    else some (record {
      logpath = log_path o.logpath (node (codes "logfile"));
      ip = ip;
      port = as_int (strtol_size port);
      akind = kind_of (node (codes "http.v6"));
    })

pub with_entries : (Bytes → Option Bytes) → Options → Option Bytes → Option Bytes → Option Settings
unfolding with_port
with_entries node o (some ip) (some port) = with_port node o ip port
with_entries node o ip port = none

unfoldable pub read_settings : (Bytes → Option Bytes) → Options → Option Settings
unfolding with_entries
read_settings node o = with_entries node o (node (codes "http.ip")) (node (codes "http.port"))

-- How `main` ends before the loop of the server: with an exit code, or in `httpserv_httpserver_run`.
pub data MainEnd (Regex : Type 0) : Type 0 where
  exits : ℕ → MainEnd Regex
  runs : Started Regex → MainEnd Regex

module _ {Regex : Type 0} (w : World Regex) where
  -- `httpserv_httpserver_use_ssl`, if the node `ssl` is there and both files are named.
  unfoldable pub set_up_ssl :
      (Bytes → Option Bytes) → Option (Server Regex) → Run (Option (Server Regex))
  set_up_ssl node srv = elim (node (codes "ssl")) [
    | none ↦ pure srv
    | some value ↦ elim (node (codes "ssl.certfile")) [
      | none ↦ pure srv
      | some cert ↦ elim (node (codes "ssl.privkeyfile")) [
        | none ↦ pure srv
        | some key ↦ use_ssl w.openssl srv (some key) (some cert)
      ]
    ]
  ]

  pub run_server : ℕ → Option (Server Regex) → Run (MainEnd Regex)
  run_server threads none = pure (exits 1)
  run_server threads (some s) = do started ← server_run w.sockets s threads; pure (runs started)

  -- From the routes on.
  pub with_routes :
      (Bytes → Option Bytes) → ℕ → Option (Server Regex) → FileResult Regex → Run (MainEnd Regex)
  unfolding set_up_ssl run_server add_router add_resource_loader loader_new
  with_routes node threads srv File.not_opened = pure (exits 1)
  with_routes node threads srv File.dangling = undefined
  with_routes node threads srv File.wild_free = undefined
  with_routes node threads srv (File.loaded routes) = do
    let root = get_or (codes ".") (node (codes "resource.root"))
    srv' ←
        set_up_ssl node
          (add_resource_loader (add_router srv (some routes)) (loader_new (some root)))
    run_server threads srv'

  -- The `port` of the server is a `uint16_t`.
  unfoldable pub make_server : (Bytes → Option Bytes) → Options → Settings → Run (MainEnd Regex)
  unfolding with_routes server_new
  make_server node o c = do
    srv ← server_new w.sockets c.ip (c.port % 2 ^ 16) c.akind
    with_routes node o.threads srv (parse_from_file w.regcomp (w.file o.rpath))

  pub detach_and_make : (Bytes → Option Bytes) → Options → Settings → Option ℕ → Run (MainEnd Regex)
  unfolding make_server
  detach_and_make node o c (some code) = pure (exits code)
  detach_and_make node o c none = make_server node o c

  pub with_settings : (Bytes → Option Bytes) → Options → Option Settings → Run (MainEnd Regex)
  unfolding detach_and_make
  with_settings node o none = pure (exits 1)
  with_settings node o (some c) =
      detach_and_make node o c (if o.detach then fork_result w.forked else none)

  pub with_config : Options → LoadResult → Run (MainEnd Regex)
  unfolding with_settings
  with_config o Config.not_opened = pure (exits 1)
  with_config o Config.crashed = undefined
  with_config o (Config.loaded entries) =
      with_settings (w.tree_get entries) o (read_settings (w.tree_get entries) o)

  pub with_options : Parsed → Run (MainEnd Regex)
  unfolding with_config
  with_options Cweb.exits = pure (exits 0)
  with_options (Cweb.parsed o) = with_config o (Config.load (w.file o.path))

  -- `main`
  unfoldable pub main : List Bytes → Run (MainEnd Regex)
  unfolding with_options
  main argv = with_options (parse_args ready argv defaults)
