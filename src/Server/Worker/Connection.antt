-- ===== src/Server/Worker/Connection.antt =====
-- The worker on a connection that the loop of the server accepted.
use httpserv.Prelude.{ℕ, ◌≡◌, refl, ap, ◌∙◌, true, List, [], ◌∷◌, ◌++◌, Option, Bytes}
use mathlib.Core.List.{map}
use httpserv.Net.{Run, Event, conn_block, wrote, returns, pure, after, ◌>>◌}
use httpserv.Net.Connector.{Kind, ssl, sck, Conn, connector_write, destroy_connection}
use httpserv.Net.Tls.{ssl_init_conn}
use httpserv.Server.Life.Ownership.{closings, freeings}
use httpserv.Server.Accept.{connect}
use httpserv.Server.Accept.Descriptors.{conn_for, connect-conn_for}
use httpserv.Server.Worker.{write, close, returned, Env, worker}
use httpserv.Server.Worker
use httpserv.Server.Worker.Closes.{worker-IsClosed}

-- The calls of src/net/connector.c that the events of a worker stand for.
pub calls : Conn → Kind → List Worker.Event → Run (Unit {0})
calls conn kind [] = pure tt
calls conn kind (write text ∷ es) = do connector_write conn kind text; calls conn kind es
calls conn kind (close ∷ es) = do destroy_connection conn kind; calls conn kind es

-- The texts that are written, each with its descriptor.
abbrev pub writings : List Event → List (Option ℕ × Bytes)
writings [] = []
writings (wrote fd text ∷ es) = (fd, text) ∷ writings es
writings (_ ∷ es) = writings es

-- What such calls do: they write these texts, close the descriptor and free the connector.
pub record Serves (fd : Option ℕ) (texts : List Bytes) (es : List Event) : Type 0 where
  pub written : writings es ≡ map (λ text. (fd, text)) texts
  pub closed_once : closings es ≡ fd ∷ []
  pub freed_once : freeings es ≡ conn_block ∷ []

calls-write :
    (kind : Kind) (fd : Option ℕ) (text : Bytes) (es : List Worker.Event)
    → calls (conn_for kind fd) kind (write text ∷ es)
      ≡ after (wrote fd text ∷ []) (calls (conn_for kind fd) kind es)
unfolding calls connector_write ssl_init_conn
calls-write sck fd text es = refl
calls-write ssl fd text es = refl

calls-Serves :
    (kind : Kind) (fd : Option ℕ) (texts : List Bytes)
    → (es : List Event) × (calls (conn_for kind fd) kind (map write texts ++ close ∷ [])
        ≡ returns tt es)
      × Serves fd texts es
unfolding calls destroy_connection ssl_init_conn
calls-Serves sck fd [] = (_, refl, record { written = refl; closed_once = refl; freed_once = refl })
calls-Serves ssl fd [] = (_, refl, record { written = refl; closed_once = refl; freed_once = refl })
calls-Serves kind fd (text ∷ texts) =
    let (es, more, h) = calls-Serves kind fd texts in
    (
      wrote fd text ∷ es,
      calls-write kind fd text (map write texts ++ close ∷ [])
          ∙ ap (after (wrote fd text ∷ [])) more,
      record {
        written = ap (◌∷◌ (fd, text)) h.written;
        closed_once = h.closed_once;
        freed_once = h.freed_once;
      },
    )

module _ {Regex : Type 0} (env : Env Regex) where
  -- For the connector that the loop of the server makes for an accepted connection, with TLS or
  -- without: whenever the worker returns behind a handshake that succeeded, its events are some
  -- writes and then one close, and the calls of the connector that they stand for return, write
  -- just those texts to the descriptor that was accepted, in order, close that descriptor once and
  -- free the connector once.
  pub worker-calls :
      (junk : ℕ → ℕ) (fuel : ℕ) (input : Bytes) (srvconn conn : Conn) (kind : Kind)
      (connfd : Option ℕ) {es : List Worker.Event}
      → connect srvconn kind connfd ≡ returns conn []
      → worker env junk true fuel input ≡ returned es
      → (texts : List Bytes) × (fs : List Event) × (es ≡ map write texts ++ close ∷ [])
        × (calls conn kind es ≡ returns tt fs)
        × Serves connfd texts fs
  worker-calls junk fuel input srvconn conn kind connfd made e =
      let (texts, shape) = worker-IsClosed env junk fuel input e in
      let (fs, done, h) = calls-Serves kind connfd texts in
      (texts, fs, shape, rw (connect-conn_for srvconn conn kind connfd made, shape) done, h)
