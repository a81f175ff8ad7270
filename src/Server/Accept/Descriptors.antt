-- ===== src/Server/Accept/Descriptors.antt =====
-- Which descriptor a connector stands for.
use httpserv.Prelude.{ℕ, ◌≡◌, refl, List, [], ◌∷◌, Option, some, none, arith}
use httpserv.Net.{Event, Pointer, wild, to, returns}
use httpserv.Net.Tls.{ssl_init_conn}
use httpserv.Net.Connector.{Kind, ssl, sck, Conn, unset, sck_conn, ssl_conn, destroy_connection}
use httpserv.Server.Life.Ownership.{closings}
use httpserv.Server.Accept.{connect}

-- The descriptor of a connection.
abbrev pub object_fd : Pointer (Option ℕ) → Option ℕ
object_fd wild = none
object_fd (to fd) = fd

abbrev pub fd_of : Conn → Option ℕ
fd_of (sck_conn fd) = fd
fd_of (ssl_conn (some t)) = object_fd t.ssl
fd_of _ = none

pub connect-fd_of :
    (conn c : Conn) (kind : Kind) (connfd : Option ℕ)
    → connect conn kind connfd ≡ returns c []
    → fd_of c ≡ connfd
unfolding connect ssl_init_conn
connect-fd_of conn c sck connfd e = ground arith
connect-fd_of (ssl_conn (some t)) c ssl connfd e = ground arith
connect-fd_of (ssl_conn none) c ssl connfd e = cc
connect-fd_of (sck_conn fd) c ssl connfd e = cc
connect-fd_of unset c ssl connfd e = cc

pub closings-destroy_connection :
    (c : Conn) (kind : Kind) {es : List Event}
    → destroy_connection c kind ≡ returns tt es
    → closings es ≡ fd_of c ∷ []
unfolding destroy_connection
closings-destroy_connection (sck_conn fd) sck e = ground arith
closings-destroy_connection (ssl_conn t) sck e = cc
closings-destroy_connection unset sck e = cc
closings-destroy_connection (ssl_conn (some t)) ssl e = ground arith
closings-destroy_connection (ssl_conn none) ssl e = cc
closings-destroy_connection (sck_conn fd) ssl e = cc
closings-destroy_connection unset ssl e = cc

-- The connector for an accepted connection.
abbrev pub conn_for : Kind → Option ℕ → Conn
conn_for sck fd = sck_conn fd
conn_for ssl fd = ssl_conn (some (ssl_init_conn fd))

pub connect-conn_for :
    (conn c : Conn) (kind : Kind) (connfd : Option ℕ)
    → connect conn kind connfd ≡ returns c []
    → c ≡ conn_for kind connfd
unfolding connect
connect-conn_for conn c sck connfd e = cc
connect-conn_for (ssl_conn (some t)) c ssl connfd e = cc
connect-conn_for (ssl_conn none) c ssl connfd e = cc
connect-conn_for (sck_conn fd) c ssl connfd e = cc
connect-conn_for unset c ssl connfd e = cc

pub destroy_connection-conn_for :
    (kind : Kind) (connfd : Option ℕ)
    → (es : List Event) × (destroy_connection (conn_for kind connfd) kind ≡ returns tt es)
unfolding destroy_connection ssl_init_conn
destroy_connection-conn_for sck connfd = (_, refl)
destroy_connection-conn_for ssl connfd = (_, refl)
