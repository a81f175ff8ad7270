-- ===== src/Net/Files.antt =====
-- `httpserv_resource_write_to_fd` and `httpserv_resource_write_to_conn` of src/resource.c.
use httpserv.Prelude.{ℕ, ◌≡◌, refl, length, Option, some, none}
use httpserv.Resource.{Resource}
use httpserv.Server.Worker.{fill}
use httpserv.Server.Worker.Answers.{fill-length}
use httpserv.Net.{Run, wrote, pure, emit, ◌>>=◌}
use httpserv.Net.Connector.{Kind, ssl, sck, Conn, as_sck, ssl_fd, connector_write}

-- `httpserv_resource_write_to_fd`
unfoldable pub resource_write_to_fd : Option Resource → Option ℕ → Run (Unit {0})
resource_write_to_fd none fd = pure tt
resource_write_to_fd (some res) fd = emit (wrote fd (fill res.size res.contents))

-- `httpserv_resource_write_to_conn`
unfoldable pub resource_write_to_conn : Option Resource → Option Conn → Kind → Run (Unit {0})
resource_write_to_conn (some res) (some conn) sck = do
  fd ← as_sck conn
  emit (wrote fd (fill res.size res.contents))
resource_write_to_conn (some res) (some conn) ssl = do
  fd ← ssl_fd conn
  emit (wrote fd (fill res.size res.contents))
resource_write_to_conn res conn ckind = pure tt

-- The write of a resource hands the bytes of its file to the write of the connector.
pub resource_write-connector_write :
    (res : Resource) (conn : Conn) (kind : Kind)
    → length res.contents ≡ res.size
    → resource_write_to_conn (some res) (some conn) kind ≡ connector_write conn kind res.contents
unfolding resource_write_to_conn connector_write
resource_write-connector_write res conn sck h = rw (fill-length res.contents res.size h) refl
resource_write-connector_write res conn ssl h = rw (fill-length res.contents res.size h) refl
