-- ===== src/Cweb/Signal/Stops.antt =====
-- The signal and the end of the program in each state of the loop.
use httpserv.Prelude.{
  ℕ, ◌≡◌, refl, sym, ap, ◌∙◌, Bool, true, false, List, [], ◌∷◌, ◌++◌, some, none, append-nil,
}
use mathlib.Core.Path.{subst}
use httpserv.Net.{Run, Event, returns, pure, ◌>>◌}
use httpserv.Jobs.Exec.{Functions}
use httpserv.Server.Life.{Sockets, Server, destroy}
use httpserv.Server.Life.Ownership.{Holds, Owns, closings, closings-append}
use httpserv.Server.Life.End.{ends, closings-ends, destroy-Owns}
use httpserv.Server.Accept.{
  Phase, testing, accepting, ended, accepted, System, loops, ready, server_run, Step, enter, leave,
  accept, hand, drop, interrupt, work, Reach, here, next,
}
use httpserv.Server.Accept.Handed.{fds}
use httpserv.Server.Accept.Start.{server_run-ready, server_run-IsHandled}
use httpserv.Cweb.Signal.{cweb_cleanup, handle_sigint, finish_main}

module _ {Regex : Type 0} where
  -- The server is alive until the loop has ended.
  abbrev pub Running : Phase Regex → Bool → Type 0
  Running ended alive = alive ≡ false
  Running _ alive = alive ≡ true

  record IsLive (fd : ℕ) (u : System Regex) : Type 0 where
    holds : Holds fd u.server.conn u.server.ckind
    running : Running u.phase u.server.alive

  Running-phase :
      (u : System Regex) (p : Phase Regex)
      → u.phase ≡ p
      → Running u.phase u.server.alive
      → Running p u.server.alive
  Running-phase u p e h = subst (λ p. Running p u.server.alive) e h

  Step-IsLive :
      (run : Functions) (fd : ℕ) {u v : System Regex} → Step run u v → IsLive fd u → IsLive fd v
  Step-IsLive run fd {u} (enter at alive) h = record {
    holds = h.holds;
    running = Running-phase u testing at h.running;
  }
  Step-IsLive run fd (leave at stopped) h = record { holds = h.holds; running = refl }
  Step-IsLive run fd {u} (accept connfd at made) h = record {
    holds = h.holds;
    running = Running-phase u accepting at h.running;
  }
  Step-IsLive run fd {u} (hand {d} at alive added signal) h = record {
    holds = h.holds;
    running = Running-phase u (accepted d) at h.running;
  }
  Step-IsLive run fd {u} (drop {d} at stopped destroyed) h = record {
    holds = h.holds;
    running = Running-phase u (accepted d) at h.running;
  }
  Step-IsLive run fd (interrupt alive) h = record { holds = h.holds; running = h.running }
  Step-IsLive run fd (work step) h = record { holds = h.holds; running = h.running }

  Reach-IsLive :
      (run : Functions) (fd : ℕ) {u v : System Regex} → Reach run u v → IsLive fd u → IsLive fd v
  Reach-IsLive run fd here h = h
  Reach-IsLive run fd (next r step) h = Step-IsLive run fd step (Reach-IsLive run fd r h)

  server_run-IsLive :
      (run : Functions) (sys : Sockets) (fd : ℕ) (s : Server Regex) (threads : ℕ)
      {u v : System Regex} {es : List Event}
      → Owns fd s
      → server_run sys s threads ≡ returns (loops u) es
      → Reach run u v
      → IsLive fd v
  unfolding ready
  server_run-IsLive run sys fd s threads o e r =
      let (pool, _, start) = server_run-ready sys s threads e in
      let live : IsLive fd (ready s pool) = record { holds = o.holds; running = refl } in
      Reach-IsLive run fd r (subst (IsLive fd) (sym start) live)

  -- What a signal does in a state: it is a step of the loop, or it ends the process and the server.
  abbrev pub Signalled : Functions → ℕ → System Regex → Phase Regex → Type 0
  Signalled run fd u ended =
      (es : List Event) × (handle_sigint (some u.server) ≡ returns none es)
      × (closings es ≡ some fd ∷ [])
  Signalled run fd u _ =
      (s : Server Regex) × (handle_sigint (some u.server) ≡ returns (some s) [])
      × Step run u (record u { server = s })
      × (s.keep_alive ≡ false)

  signal_alive :
      (run : Functions) (u : System Regex)
      → u.server.alive ≡ true
      → (s : Server Regex) × (handle_sigint (some u.server) ≡ returns (some s) [])
        × Step run u (record u { server = s })
        × (s.keep_alive ≡ false)
  unfolding handle_sigint
  signal_alive run u alive =
      (record u.server { keep_alive = false }, rw alive refl, interrupt alive, refl)

  signal_idle :
      (s : Server Regex)
      → s.alive ≡ false
      → handle_sigint (some s) ≡ (destroy (some s) >> pure none)
  unfolding handle_sigint cweb_cleanup
  signal_idle s idle = rw idle refl

  signal_ended :
      (fd : ℕ) (s : Server Regex)
      → Holds fd s.conn s.ckind
      → s.alive ≡ false
      → (es : List Event) × (handle_sigint (some s) ≡ returns none es)
        × (closings es ≡ some fd ∷ [])
  signal_ended fd s h idle =
      let done = destroy-Owns fd s (record { holds = h; idle = idle }) in
      (
        ends fd s.ckind s.tp ++ [],
        signal_idle s idle ∙ ap (λ (r : Run (Unit {0})). r >> pure none) done,
        ap closings (append-nil (ends fd s.ckind s.tp)) ∙ closings-ends fd s.ckind s.tp,
      )

  signal_at :
      (run : Functions) (fd : ℕ) (u : System Regex) (p : Phase Regex)
      → Holds fd u.server.conn u.server.ckind
      → Running p u.server.alive
      → Signalled run fd u p
  signal_at run fd u testing h alive = signal_alive run u alive
  signal_at run fd u accepting h alive = signal_alive run u alive
  signal_at run fd u (accepted d) h alive = signal_alive run u alive
  signal_at run fd u ended h idle = signal_ended fd u.server h idle

  -- A signal at a state of the loop of a server that owns a socket: until the loop has ended it is
  -- a step that clears `keep_alive`; behind the loop it ends the process and closes the socket of
  -- the server, once.
  pub handle_sigint_lem :
      (run : Functions) (sys : Sockets) (fd : ℕ) (s : Server Regex) (threads : ℕ)
      {u v : System Regex} {es : List Event}
      → Owns fd s
      → server_run sys s threads ≡ returns (loops u) es
      → Reach run u v
      → Signalled run fd v v.phase
  handle_sigint_lem run sys fd s threads {u} {v} o e r =
      let h = server_run-IsLive run sys fd s threads o e r in
      signal_at run fd v v.phase h.holds h.running

  -- When the loop of a server that owns a socket has ended, the end of `main` returns 0, and the
  -- sockets closed by the loop and by the end are the accepted connection that was not handed over,
  -- if there is one, and then the socket of the server.
  pub finish_main_lem :
      (run : Functions) (sys : Sockets) (fd : ℕ) (s : Server Regex) (threads : ℕ)
      {u v : System Regex} {es : List Event}
      → Owns fd s
      → server_run sys s threads ≡ returns (loops u) es
      → Reach run u v
      → v.phase ≡ ended
      → (gs : List Event) × (finish_main v.server 0 ≡ returns 0 gs)
        × (closings (v.events ++ gs) ≡ fds v.dropped ++ some fd ∷ [])
  unfolding finish_main cweb_cleanup
  finish_main_lem run sys fd s threads {u} {v} o e r at =
      let h = server_run-IsLive run sys fd s threads o e r in
      let idle : v.server.alive ≡ false = Running-phase v ended at h.running in
      let done = destroy-Owns fd v.server (record { holds = h.holds; idle = idle }) in
      let shut = (server_run-IsHandled run sys s threads e r).shut in
      let kind = v.server.ckind in
      let tp = v.server.tp in
      (
        ends fd kind tp ++ [],
        ap (λ (r : Run (Unit {0})). r >> pure 0) done,
        closings-append v.events (ends fd kind tp ++ [])
            ∙ ap (λ x. x ++ closings (ends fd kind tp ++ [])) shut
            ∙ ap (λ x. fds v.dropped ++ closings x) (append-nil (ends fd kind tp))
            ∙ ap (λ x. fds v.dropped ++ x) (closings-ends fd kind tp),
      )
