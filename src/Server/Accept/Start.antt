-- ===== src/Server/Accept/Start.antt =====
-- From the start of a server to every state of its loop.
use httpserv.Prelude.{
  ℕ, ◌≡◌, refl, sym, Bool, true, false, List, Option, some, none, inl, if◌then◌else◌,
}
use mathlib.Core.Path.{subst}
use httpserv.Net.{Run, Event, pure, ◌>>=◌, endless, returns, undefined}
use httpserv.Net.Connector.{get_fd}
use httpserv.Jobs.Exec.{Functions}
use httpserv.Jobs.Pool.{Pool, pool_new}
use httpserv.Jobs.Pool.Once.{pool_new-IsOnce}
use httpserv.Jobs.Pool.Progress.{pool_new-HasTasks}
use httpserv.Server.Accept.Handed.{IsHandled, Reach-IsHandled}
use httpserv.Server.Life.{Sockets, Server}
use httpserv.Server.Accept.{
  System, Started, loops, refused, ready, has_pool, start_loop, server_run, Reach,
}

module _ {Regex : Type 0} where
  ready-IsHandled :
      (s : Server Regex) (threads : ℕ) {pool : Pool}
      → pool_new threads ≡ some pool
      → IsHandled (ready s pool)
  unfolding ready
  ready-IsHandled s threads e = record {
    once = pool_new-IsOnce threads e;
    tasks = pool_new-HasTasks threads e;
    split = refl;
    last = inl refl;
    shut = refl;
  }

  -- A run that gets to its loop has a pool.
  abbrev IsReady : Server Regex → Option Pool → Started Regex → Type 0
  IsReady s made (loops u) = (pool : Pool) × (made ≡ some pool) × (u ≡ ready s pool)
  IsReady s made _ = Unit

  start_loop-IsReady : (s : Server Regex) (made : Option Pool) → IsReady s made (start_loop s made)
  unfolding start_loop
  start_loop-IsReady s none = tt
  start_loop-IsReady s (some pool) = (pool, refl, refl)

  started-IsReady :
      (s : Server Regex) (made : Option Pool) (listens : Bool)
      → IsReady s made
          (if listens then start_loop s made else refused (record s { tp = has_pool made }))
  started-IsReady s made true = start_loop-IsReady s made
  started-IsReady s made false = tt

  pub server_run-ready :
      (sys : Sockets) (s : Server Regex) (threads : ℕ) {u : System Regex} {es : List Event}
      → server_run sys s threads ≡ returns (loops u) es
      → (pool : Pool) × (pool_new threads ≡ some pool) × (u ≡ ready s pool)
  unfolding server_run
  server_run-ready sys s threads {u} e = go (get_fd s.conn s.ckind) e
    where
      go :
          (r : Run (Option ℕ)) {es : List Event}
          → (r >>= λ fd. pure (
              if sys.listen fd
              then start_loop s (pool_new threads)
              else refused (record s { tp = has_pool (pool_new threads) })))
            ≡ returns (loops u) es
          → (pool : Pool) × (pool_new threads ≡ some pool) × (u ≡ ready s pool)
      go (returns fd fs) e =
          let same : (if sys.listen fd
                then start_loop s (pool_new threads)
                else refused (record s { tp = has_pool (pool_new threads) }))
              ≡ loops u =
            cc in
          subst (IsReady s (pool_new threads)) same
            (started-IsReady s (pool_new threads) (sys.listen fd))
      go endless e = cc
      go undefined e = cc

  -- In every state that the loop of a server reaches, with any steps of the workers and any
  -- interrupt in between: each connection that was handed over is one job of the pool, in one
  -- place; the connections handed over, the one that was closed and the one still with the loop
  -- are, in order, all that were accepted; at most one was closed, only behind an interrupt and
  -- with no other accepted since; and the closings of the loop are just that one.
  pub server_run-IsHandled :
      (run : Functions) (sys : Sockets) (s : Server Regex) (threads : ℕ) {u v : System Regex}
      {es : List Event}
      → server_run sys s threads ≡ returns (loops u) es
      → Reach run u v
      → IsHandled v
  server_run-IsHandled run sys s threads e r =
      let (pool, made, start) = server_run-ready sys s threads e in
      Reach-IsHandled run r (subst IsHandled (sym start) (ready-IsHandled s threads made))
