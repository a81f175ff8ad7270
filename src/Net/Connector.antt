-- ===== src/Net/Connector.antt =====
-- src/net/connector.c: a connection with or without TLS.
use httpserv.Prelude.{ℕ, Option, Bytes}
use httpserv.Net.{
  Run, conn_block, wrote, closed, ssl_freed, freed, undefined, pure, emit, deref, deref_opt, ◌>>=◌,
  ◌>>◌,
}
use httpserv.Net.Tls.{Tls, ssl_destroy}

-- `httpserv_net_connector_kind_t`
pub data Kind : Type 0 where
  ssl sck : Kind

-- `httpserv_net_connector_t`, a union, by the member that was written last.
pub data Conn : Type 0 where
  unset : Conn
  sck_conn : Option ℕ → Conn
  ssl_conn : Option Tls → Conn

-- `conn->sck_conn` and `conn->ssl_conn->…`
abbrev pub as_sck : Conn → Run (Option ℕ)
as_sck (sck_conn fd) = pure fd
as_sck _ = undefined

abbrev pub as_ssl : Conn → Run Tls
as_ssl (ssl_conn t) = deref_opt t
as_ssl _ = undefined

-- `SSL_get_fd(conn->ssl_conn->ssl)`
abbrev pub ssl_fd : Conn → Run (Option ℕ)
ssl_fd conn = do t ← as_ssl conn; deref t.ssl

-- `httpserv_net_connector_init`
abbrev pub connector_init : Conn
connector_init = unset

-- `httpserv_net_connector_get_fd`
unfoldable pub get_fd : Conn → Kind → Run (Option ℕ)
get_fd conn sck = as_sck conn
get_fd conn ssl = ssl_fd conn

-- `httpserv_net_connector_write`, as the bytes that are handed over for the descriptor.
unfoldable pub connector_write : Conn → Kind → Bytes → Run (Unit {0})
connector_write conn sck buffer = do fd ← as_sck conn; emit (wrote fd buffer)
connector_write conn ssl buffer = do fd ← ssl_fd conn; emit (wrote fd buffer)

-- `httpserv_net_connector_destroy`
unfoldable pub connector_destroy : Conn → Kind → Run (Unit {0})
unfolding ssl_destroy
connector_destroy conn sck = do fd ← as_sck conn; emit (closed fd); emit (freed conn_block)
connector_destroy conn ssl = do t ← as_ssl conn; ssl_destroy t; emit (freed conn_block)

-- `httpserv_net_connector_destroy_connection`
unfoldable pub destroy_connection : Conn → Kind → Run (Unit {0})
destroy_connection conn sck = do fd ← as_sck conn; emit (closed fd); emit (freed conn_block)
destroy_connection conn ssl = do
  fd ← ssl_fd conn
  emit (closed fd)
  emit ssl_freed
  emit (freed conn_block)
