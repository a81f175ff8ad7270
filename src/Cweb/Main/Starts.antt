-- ===== src/Cweb/Main/Starts.antt =====
-- From the arguments and the files to a server that listens.
use httpserv.Prelude.{
  ℕ, ◌≡◌, ◌≢◌, arith, refl, true, false, List, [], ◌++◌, Option, some, none, Bytes, codes,
}
use Prim.Native.Nat.{◌%◌, ◌^◌}
use mathlib.Core.List.{reverse}
use httpserv.Cstring.Decimal.{strtol_size}
use httpserv.Net.{returns, pure}
use httpserv.Net.Connector.{sck, sck_conn, get_fd}
use httpserv.Router.{Route}
use httpserv.Router.File.{words, parse_all, parse_from_file-words}
use httpserv.Resource.{loader_new}
use httpserv.Config.{LoadResult}
use httpserv.Config
use httpserv.Jobs.Pool.{Pool, pool_new}
use httpserv.Server.Life.{AddrKind, Sockets, Server, add_router, add_resource_loader}
use httpserv.Server.Life.Ownership.{server_new-fresh}
use httpserv.Server.Accept.{loops, ready, server_run}
use httpserv.Cweb.{Options, defaults, parsed, parse_args}
use httpserv.Cweb
use httpserv.Cweb.Threads.{parse_args-threads}
use httpserv.Cweb.Main.{
  World, Settings, as_int, get_or, kind_of, log_path, with_entries, with_port, read_settings, runs,
  set_up_ssl, make_server, main,
}

-- The calls on sockets succeed for this address and port.
pub record Listens (sys : Sockets) (akind : AddrKind) (ip : Bytes) (port fd : ℕ) : Type 0 where
  pub parses : sys.inet_pton akind ip ≡ true
  pub opens : sys.socket akind ≡ some fd
  pub binds : sys.bind fd akind ip port ≡ true
  pub hears : sys.listen (some fd) ≡ true

-- The configuration names an address and a port, and no TLS.
pub record IsPlain (node : Bytes → Option Bytes) (ip port : Bytes) : Type 0 where
  pub has_ip : node (codes "http.ip") ≡ some ip
  pub has_port : node (codes "http.port") ≡ some port
  pub is_number : as_int (strtol_size port) ≢ 0
  pub no_ssl : node (codes "ssl") ≡ none

-- The settings of such a configuration.
abbrev pub plain_settings : (Bytes → Option Bytes) → Options → Bytes → Bytes → Settings
plain_settings node o ip port = record {
  logpath = log_path o.logpath (node (codes "logfile"));
  ip = ip;
  port = as_int (strtol_size port);
  akind = kind_of (node (codes "http.v6"));
}

pub with_port-some :
    (node : Bytes → Option Bytes) (o : Options) (ip port : Bytes)
    → as_int (strtol_size port) ≢ 0
    → with_port node o ip port ≡ some (plain_settings node o ip port)
unfolding with_port
with_port-some node o ip port h = ground arith

read_settings-IsPlain :
    (node : Bytes → Option Bytes) (o : Options) (ip port : Bytes)
    → IsPlain node ip port
    → read_settings node o ≡ some (plain_settings node o ip port)
unfolding read_settings
read_settings-IsPlain node o ip port h =
    rw (h.has_ip, h.has_port, with_entries) (with_port-some node o ip port h.is_number)

module _ {Regex : Type 0} where
  -- The server that listens on such a socket.
  abbrev pub listening :
      (Bytes → Option Bytes) → Bytes → ℕ → AddrKind → ℕ → List (Route Regex) → Server Regex
  listening node ip port akind fd routes = record {
    conn = sck_conn (some fd);
    ckind = sck;
    akind = akind;
    tp = false;
    alive = false;
    keep_alive = false;
    ip = ip;
    port = port;
    router = some routes;
    resload = loader_new (some (get_or (codes ".") (node (codes "resource.root"))));
  }

  set_up_ssl-none :
      (w : World Regex) (node : Bytes → Option Bytes) (srv : Option (Server Regex))
      → node (codes "ssl") ≡ none
      → set_up_ssl w node srv ≡ pure srv
  unfolding set_up_ssl
  set_up_ssl-none w node srv no_ssl = rw (no_ssl, set_up_ssl) refl

  with_routes-listening :
      (w : World Regex) (node : Bytes → Option Bytes) (o : Options) (c : Settings) (fd : ℕ)
      (text : Bytes) (routes : List (Route Regex)) {pool : Pool}
      → Listens w.sockets c.akind c.ip (c.port % 2 ^ 16) fd
      → node (codes "ssl") ≡ none
      → w.file o.rpath ≡ some text
      → words text ≢ []
      → parse_all w.regcomp (words text) ≡ some routes
      → pool_new o.threads ≡ some pool
      → make_server w node o c
        ≡ returns
            (runs (
              loops (
                ready
                  (listening node c.ip (c.port % 2 ^ 16) c.akind fd (reverse routes ++ []))
                  pool)))
            []
  unfolding make_server add_router add_resource_loader loader_new server_run get_fd
  with_routes-listening w node o c fd text routes l no_ssl file some_word good made =
      rw
        (
          server_new-fresh Regex w.sockets c.ip (c.port % 2 ^ 16) c.akind fd l.parses l.opens
              l.binds,
          file,
          parse_from_file-words w.regcomp text some_word,
          good,
        )
        (rw (set_up_ssl-none w node _ no_ssl, l.hears, made) refl)

  -- If the arguments are read without an exit and without `-d`, the configuration file is loaded
  -- with an address, a port that is not 0 as an `int`, and no TLS, every call on the socket
  -- succeeds, and the route file has a word and only lines that give routes, then `main` gets to
  -- the loop of a server on that socket, with ten threads, the address, the low 16 bits of the
  -- port, the routes in reverse order and the resource root of the configuration.
  pub main-starts :
      (w : World Regex) (argv : List Bytes) (ip port text route_text : Bytes) (fd : ℕ)
      (routes : List (Route Regex)) {o : Options} {entries : List (Bytes × Bytes)}
      → parse_args Cweb.ready argv defaults ≡ parsed o
      → o.detach ≡ false
      → w.file o.path ≡ some text
      → Config.load (some text) ≡ Config.loaded entries
      → IsPlain (w.tree_get entries) ip port
      → Listens w.sockets
          (kind_of (w.tree_get entries (codes "http.v6")))
          ip
          (as_int (strtol_size port) % 2 ^ 16)
          fd
      → w.file o.rpath ≡ some route_text
      → words route_text ≢ []
      → parse_all w.regcomp (words route_text) ≡ some routes
      → (pool : Pool) × (pool_new 10 ≡ some pool)
        × (main w argv
            ≡ returns
                (runs (
                  loops (
                    ready
                      (listening
                        (w.tree_get entries)
                        ip
                        (as_int (strtol_size port) % 2 ^ 16)
                        (kind_of (w.tree_get entries (codes "http.v6")))
                        fd
                        (reverse routes ++ []))
                      pool)))
                [])
  unfolding main pool_new
  main-starts w argv ip port text route_text fd routes {o} {entries} parses stays file load plain
        listens route_file some_word good =
      (
        _,
        refl,
        rw (parses, file, load, read_settings-IsPlain (w.tree_get entries) o ip port plain)
            (simp stays (
              with_routes-listening w (w.tree_get entries) o
                (plain_settings (w.tree_get entries) o ip port) fd route_text routes listens
                plain.no_ssl route_file some_word good (rw (parse_args-threads argv parses) refl))),
      )
