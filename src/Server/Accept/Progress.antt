-- ===== src/Server/Accept/Progress.antt =====
-- The loop that accepts connections is never stuck.
use httpserv.Prelude.{
  ◌∷◌, ◌++◌, ℕ, ◌≡◌, ◌≢◌, refl, sym, ◌∙◌, List, [], Option, length, inl, inr, Bool-cases,
}
use mathlib.Core.Path.{subst}
use httpserv.Net.{Event, returns}
use httpserv.Net.Connector.{Kind, Conn}
use httpserv.Jobs.Exec.{Functions}
use httpserv.Jobs.Pool.Signals.Awake.{signal_any}
use httpserv.Jobs.Queue.Fifo.{add_work-IsQueue}
use httpserv.Server.Life.{Sockets, Server}
use httpserv.Server.Life.Ownership.{Holds, Owns}
use httpserv.Server.Accept.{
  Phase, testing, accepting, ended, accepted, System, worker_task, loops, ready, server_run,
  connect, Step, enter, leave, accept, hand, drop, interrupt, work, Reach, here, next,
}
use httpserv.Server.Accept.Descriptors.{conn_for, destroy_connection-conn_for}
use httpserv.Server.Accept.Handed.{IsHandled}
use httpserv.Server.Accept.Start.{server_run-ready, server_run-IsHandled}

connect-Holds :
    (fd : ℕ) (conn : Conn) (kind : Kind) (connfd : Option ℕ)
    → Holds fd conn kind
    → connect conn kind connfd ≡ returns (conn_for kind connfd) []
unfolding connect
connect-Holds fd conn kind connfd (inl (c, k)) = rw (c, k) refl
connect-Holds fd conn kind connfd (inr (key, cert, c, k)) = rw (c, k) refl

module _ {Regex : Type 0} where
  -- A connection with the loop has a connector of the kind that its data names.
  abbrev Tagged : Phase Regex → Type 0
  Tagged (accepted d) = (connfd : Option ℕ) × (d.conn ≡ conn_for d.ckind connfd)
  Tagged _ = Unit

  record IsWired (fd : ℕ) (u : System Regex) : Type 0 where
    holds : Holds fd u.server.conn u.server.ckind
    tagged : Tagged u.phase

  Step-IsWired :
      (run : Functions) (fd : ℕ) {u v : System Regex} → Step run u v → IsWired fd u → IsWired fd v
  Step-IsWired run fd (enter at alive) h = record { holds = h.holds; tagged = tt }
  Step-IsWired run fd (leave at stopped) h = record { holds = h.holds; tagged = tt }
  Step-IsWired run fd {u} (accept connfd {conn} at made) h = record {
    holds = h.holds;
    tagged =
        let made' : returns (conn_for u.server.ckind connfd) [] ≡ returns conn [] =
          sym (connect-Holds fd u.server.conn u.server.ckind connfd h.holds) ∙ made in
        (connfd, cc);
  }
  Step-IsWired run fd (hand at alive added signal) h = record { holds = h.holds; tagged = tt }
  Step-IsWired run fd (drop at stopped destroyed) h = record { holds = h.holds; tagged = tt }
  Step-IsWired run fd (interrupt alive) h = record { holds = h.holds; tagged = h.tagged }
  Step-IsWired run fd (work step) h = record { holds = h.holds; tagged = h.tagged }

  Reach-IsWired :
      (run : Functions) (fd : ℕ) {u v : System Regex} → Reach run u v → IsWired fd u → IsWired fd v
  Reach-IsWired run fd here h = h
  Reach-IsWired run fd (next r step) h = Step-IsWired run fd step (Reach-IsWired run fd r h)

  -- A step of the loop to another phase, in `accept` with this result of the call.
  pub record Advances (run : Functions) (connfd : Option ℕ) (u : System Regex) : Type 0 where
    pub state : System Regex
    pub step : Step run u state
    pub changed : u.phase ≢ state.phase
    pub took : u.phase ≡ accepting → state.accepts ≡ u.accepts ++ connfd ∷ []

  advance_at :
      (run : Functions) (fd : ℕ) (connfd : Option ℕ) (u : System Regex) (at : Phase Regex)
      → u.phase ≡ at
      → at ≢ ended
      → IsWired fd u
      → IsHandled u
      → Advances run connfd u
  advance_at run fd connfd u testing e live w h = elim (Bool-cases u.server.keep_alive) [
    | inl alive ↦ record { state = _; step = enter e alive; changed = λ q. cc; took = λ at. cc }
    | inr stopped ↦ record { state = _; step = leave e stopped; changed = λ q. cc; took = λ at. cc }
  ]
  advance_at run fd connfd u accepting e live w h = record {
    state = _;
    step = accept connfd e (connect-Holds fd u.server.conn u.server.ckind connfd w.holds);
    changed = λ q. cc;
    took = λ at. refl;
  }
  advance_at run fd connfd u ended e live w h = absurd (live refl)
  advance_at run fd connfd u (accepted d) e live w h = elim (Bool-cases u.server.keep_alive) [
    | inl alive ↦
        let (m, added, _, _) =
          add_work-IsQueue u.pool.memory h.once.queue (worker_task (length u.handed))
            h.once.ordered in
        let (ws, signal) = signal_any u.pool.workers in
        record { state = _; step = hand e alive added signal; changed = λ q. cc; took = λ at. cc }
    | inr stopped ↦
        let (fd', tag) = subst Tagged e w.tagged in
        let (es, destroyed) = destroy_connection-conn_for d.ckind fd' in
        record {
          state = _;
          step = drop {es = es} e stopped (rw tag destroyed);
          changed = λ q. cc;
          took = λ at. cc;
        }
  ]

  -- In every state that the loop of a server with its connector reaches, other than behind the
  -- loop, it can make a step to another phase, and in `accept` it can do so for every result of
  -- that call: no step follows a NULL pointer, and no submission of a job fails.
  pub server_run-Advances :
      (run : Functions) (sys : Sockets) (fd : ℕ) (s : Server Regex) (threads : ℕ)
      (connfd : Option ℕ) {u v : System Regex} {es : List Event}
      → Owns fd s
      → server_run sys s threads ≡ returns (loops u) es
      → Reach run u v
      → v.phase ≢ ended
      → Advances run connfd v
  unfolding ready
  server_run-Advances run sys fd s threads connfd {u} {v} o e r live =
      let (pool, _, start) = server_run-ready sys s threads e in
      let wired : IsWired fd (ready s pool) = record { holds = o.holds; tagged = tt } in
      advance_at run fd connfd v v.phase refl live
        (Reach-IsWired run fd r (subst (IsWired fd) (sym start) wired))
        (server_run-IsHandled run sys s threads e r)
