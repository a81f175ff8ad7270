-- ===== src/Server/Life.antt =====
-- The life of a server: `httpserv_httpserver_new`, `_use_ssl`, `_add_router`, `_add_resource_loader` and
-- `_destroy` of src/net/server.c. The calls on sockets are a parameter.
pub mod Ownership
pub mod End
pub mod Complete
use httpserv.Prelude.{
  ℕ, Bool, true, false, not, List, [], ◌∷◌, Option, some, none, Bytes, if◌then◌else◌,
}
use httpserv.Net.{
  Run, addr_block, ip_block, server_block, pool_destroyed, freed, endless, undefined, returns, pure,
  emit, deref_opt, ◌>>=◌, ◌>>◌,
}
use httpserv.Net.Tls.{OpenSsl, Tls, ssl_init, set_fd}
use httpserv.Net.Connector.{Kind, ssl, sck, Conn, sck_conn, ssl_conn, as_sck, connector_destroy}
use httpserv.Router.{Route}
use httpserv.Resource.{Loader}

-- `httpserv_httpserver_addr_kind_t`
pub data AddrKind : Type 0 where
  ipv4 ipv6 : AddrKind

-- The calls on sockets: whether `inet_pton` reads an address, the descriptor of a new socket, whether
-- it can be bound to an address and a port, and whether `listen` succeeds.
pub record Sockets : Type 0 where
  pub inet_pton : AddrKind → Bytes → Bool
  pub socket : AddrKind → Option ℕ
  pub bind : ℕ → AddrKind → Bytes → ℕ → Bool
  pub listen : Option ℕ → Bool

-- `httpserv_httpserver_t`; of the pool, whether there is one.
pub record Server (Regex : Type 0) : Type 0 where
  pub conn : Conn
  pub ckind : Kind
  pub akind : AddrKind
  pub tp : Bool
  pub alive : Bool
  pub keep_alive : Bool
  pub ip : Bytes
  pub port : ℕ
  pub router : Option (List (Route Regex))
  pub resload : Option Loader

-- `free(serv->addr); free(serv->ip); free(serv);`
unfoldable pub free_server : Run (Unit {0})
free_server = do emit (freed addr_block); emit (freed ip_block); emit (freed server_block)

module _ {Regex : Type 0} where
  -- The last part of `httpserv_httpserver_destroy`.
  unfoldable pub destroy_parts : Server Regex → Run (Unit {0})
  unfolding connector_destroy free_server
  destroy_parts s = do
    connector_destroy s.conn s.ckind
    (if s.tp then emit pool_destroyed else pure tt)
    free_server

  -- `httpserv_httpserver_destroy`. While the server is alive it waits, in the thread that would run it.
  unfoldable pub destroy : Option (Server Regex) → Run (Unit {0})
  unfolding destroy_parts
  destroy none = pure tt
  destroy (some s) = if s.alive then endless else destroy_parts s

  -- The members of a server whose address was read.
  unfoldable pub fresh : Bytes → ℕ → AddrKind → Option ℕ → Server Regex
  fresh ip port akind fd = record {
    conn = sck_conn fd;
    ckind = sck;
    akind = akind;
    tp = false;
    alive = false;
    keep_alive = false;
    ip = ip;
    port = port;
    router = none;
    resload = none;
  }

  -- `httpserv_httpserver_new` with a socket.
  pub bind_server : Sockets → Server Regex → ℕ → Run (Option (Server Regex))
  unfolding destroy
  bind_server sys s fd =
      if sys.bind fd s.akind s.ip s.port then pure (some s) else (do destroy (some s); pure none)

  pub open_socket : Sockets → Bytes → ℕ → AddrKind → Option ℕ → Run (Option (Server Regex))
  unfolding bind_server free_server fresh
  open_socket sys ip port akind none = do free_server; pure none
  open_socket sys ip port akind (some fd) = bind_server sys (fresh ip port akind (some fd)) fd

  -- `httpserv_httpserver_new`
  unfoldable pub server_new : Sockets → Bytes → ℕ → AddrKind → Run (Option (Server Regex))
  unfolding open_socket free_server
  server_new sys ip port akind =
      if sys.inet_pton akind ip
      then open_socket sys ip port akind (sys.socket akind)
      else (do free_server; pure none)

  -- `httpserv_httpserver_use_ssl`
  unfoldable pub use_ssl :
      OpenSsl → Option (Server Regex) → Option Bytes → Option Bytes → Run (Option (Server Regex))
  unfolding ssl_init set_fd
  use_ssl o none key cert = pure none
  use_ssl o (some s) key cert = do
    fd ← as_sck s.conn
    made ← ssl_init o key cert
    t ← deref_opt made
    t' ← set_fd t fd
    pure (some (record s { ckind = ssl; conn = ssl_conn (some t') }))

  -- `httpserv_httpserver_add_router` and `httpserv_httpserver_add_resource_loader`
  unfoldable pub add_router :
      Option (Server Regex) → Option (List (Route Regex)) → Option (Server Regex)
  add_router none router = none
  add_router (some s) router = some (record s { router = router })

  unfoldable pub add_resource_loader : Option (Server Regex) → Option Loader → Option (Server Regex)
  add_resource_loader none resload = none
  add_resource_loader (some s) resload = some (record s { resload = resload })
