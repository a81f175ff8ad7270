-- ===== src/Server/Accept.antt =====
-- `httpserv_httpserver_run` of src/net/server.c: the loop that accepts connections, as steps that
-- interleave with those of the workers of its pool, and with `handle_sigint` of cweb.c.
pub mod Descriptors
pub mod Handed
pub mod Start
pub mod Progress
pub mod Drain
pub mod Starve
use httpserv.Prelude.{
  ℕ, ◌≡◌, Bool, true, false, List, [], ◌∷◌, ◌++◌, Option, some, none, length, if◌then◌else◌,
}
use httpserv.Net.{Run, Event, returns, pure, ◌>>=◌}
use httpserv.Net.Tls.{ssl_init_conn}
use httpserv.Net.Connector.{
  Kind, ssl, sck, Conn, sck_conn, ssl_conn, as_ssl, get_fd, destroy_connection,
}
use httpserv.Router.{Route}
use httpserv.Resource.{Loader}
use httpserv.Jobs.{Task}
use httpserv.Jobs.Exec.{Functions}
use httpserv.Jobs.Queue.{Memory, add_work}
use httpserv.Jobs.Pool.{Pool, pool_new, WorkerStep}
use httpserv.Jobs.Pool
use httpserv.Jobs.Pool.Signals.{Signalled}
use httpserv.Server.Life.{Sockets, Server}

-- `struct HttpservWorkerData`
pub record WorkerData (Regex : Type 0) : Type 0 where
  pub conn : Conn
  pub ckind : Kind
  pub router : Option (List (Route Regex))
  pub resload : Option Loader

-- Where the loop is: before its test, in `accept`, behind it with the data for a worker, or behind the
-- loop.
pub data Phase (Regex : Type 0) : Type 0 where
  testing accepting ended : Phase Regex
  accepted : WorkerData Regex → Phase Regex

-- The server with its pool: the results of `accept`, the data that became jobs and the data whose
-- connection the loop closed, each in order, and the effects of the loop.
pub record System (Regex : Type 0) : Type 0 where
  pub server : Server Regex
  pub pool : Pool
  pub phase : Phase Regex
  pub accepts : List (Option ℕ)
  pub handed : List (WorkerData Regex)
  pub dropped : List (WorkerData Regex)
  pub events : List Event

-- The job for the data at a place in the list: the function of every job is the worker. It has
-- returned when the worker of the pool makes its step `finish`, and need not ever do so.
abbrev pub worker_task : ℕ → Task
worker_task data_index = record { function = some 0; arg = data_index }

-- What a call of `httpserv_httpserver_run` comes to before its loop: the result -1, a loop without a
-- pool, or a loop.
pub data Started (Regex : Type 0) : Type 0 where
  refused poolless : Server Regex → Started Regex
  loops : System Regex → Started Regex

abbrev pub has_pool : Option Pool → Bool
has_pool none = false
has_pool (some pool) = true

-- The connector for a connection, by the kind of the server.
unfoldable pub connect : Conn → Kind → Option ℕ → Run Conn
connect conn sck connfd = pure (sck_conn connfd)
connect conn ssl connfd = do t ← as_ssl conn; pure (ssl_conn (some (ssl_init_conn connfd)))

module _ {Regex : Type 0} where
  -- The state before the first test of the loop.
  unfoldable pub ready : Server Regex → Pool → System Regex
  ready s pool = record {
    server = record s { tp = true; keep_alive = true; alive = true };
    pool = pool;
    phase = testing;
    accepts = [];
    handed = [];
    dropped = [];
    events = [];
  }

  pub start_loop : Server Regex → Option Pool → Started Regex
  unfolding ready
  start_loop s none = poolless (record s { keep_alive = true; alive = true })
  start_loop s (some pool) = loops (ready s pool)

  -- `httpserv_httpserver_run` up to its loop.
  unfoldable pub server_run : Sockets → Server Regex → ℕ → Run (Started Regex)
  unfolding start_loop get_fd
  server_run sys s threads = do
    fd ← get_fd s.conn s.ckind
    pure (
        if sys.listen fd
        then start_loop s (pool_new threads)
        else refused (record s { tp = has_pool (pool_new threads) }))

  abbrev pub data_for : Server Regex → Conn → WorkerData Regex
  data_for s conn = record { conn = conn; ckind = s.ckind; router = s.router; resload = s.resload }

  pub data Step (run : Functions) (u : System Regex) : System Regex → Type 0 where
    enter :
        u.phase ≡ testing → u.server.keep_alive ≡ true → Step run u (record u { phase = accepting })
    leave :
        u.phase ≡ testing
        → u.server.keep_alive ≡ false
        → Step run u (record u { phase = ended; server = record u.server { alive = false } })
    accept :
        (connfd : Option ℕ) {conn : Conn}
        → u.phase ≡ accepting
        → connect u.server.conn u.server.ckind connfd ≡ returns conn []
        → Step run u (record u {
          phase = accepted (data_for u.server conn);
          accepts = u.accepts ++ connfd ∷ [];
        })
    hand :
        {d : WorkerData Regex} {m : Memory} {ws : List Pool.Phase}
        → u.phase ≡ accepted d
        → u.server.keep_alive ≡ true
        → add_work u.pool.memory (worker_task (length u.handed)) ≡ some m
        → Signalled u.pool.workers ws
        → Step run u (record u {
          phase = testing;
          pool = record u.pool { memory = m; workers = ws };
          handed = u.handed ++ d ∷ [];
        })
    drop :
        {d : WorkerData Regex} {es : List Event}
        → u.phase ≡ accepted d
        → u.server.keep_alive ≡ false
        → destroy_connection d.conn d.ckind ≡ returns tt es
        → Step run u
            (record u { phase = testing; dropped = u.dropped ++ d ∷ []; events = u.events ++ es })
    -- `handle_sigint` while the server is alive.
    interrupt :
        u.server.alive ≡ true
        → Step run u (record u { server = record u.server { keep_alive = false } })
    work : {p : Pool} → WorkerStep run u.pool p → Step run u (record u { pool = p })

  pub data Reach (run : Functions) (u : System Regex) : System Regex → Type 0 where
    here : Reach run u u
    next : {v w : System Regex} → Reach run u v → Step run v w → Reach run u w
