-- ===== src/Tests/Servers.antt =====
-- Instances for the life of a server, for its loop, and for the start of the program.
use httpserv.Prelude.{
  ℕ, length, ◌+◌, ◌≤◌, ◌≡◌, refl, sym, Bool, All, true, false, List, [], ◌∷◌, ◌++◌, Option, some,
  none, inl, Bytes, codes, ◌==◌,
}
use httpserv.Net.{Event, returns, ◌>>=◌}
use httpserv.Net.Tls.{OpenSsl}
use httpserv.Net.Connector.{sck, sck_conn, destroy_connection}
use httpserv.Jobs.{job_new}
use httpserv.Jobs.Exec.{Functions}
use httpserv.Jobs.Queue.{queue_new, add_work, pop_job}
use httpserv.Jobs.Pool.{executing, looping, waiting, try_pop, pool_new, first_take, finish}
use httpserv.Server.Life.{ipv4, Sockets, Server, server_new, destroy}
use httpserv.Server.Life.Ownership.{closings, opened, Setup, tls, resources, setup}
use httpserv.Server.Life.Complete.{server_life_complete}
use httpserv.Server.Accept.{
  System, accepting, ended, loops, ready, server_run, connect, Reach, here, next, enter, accept,
  hand, work, interrupt, drop, leave,
}
use httpserv.Cweb.Signal.{finish_main}
use httpserv.Cweb.Signal.Stops.{finish_main_lem}
use httpserv.Server.Accept.Handed.{fds, IsHandled}
use httpserv.Server.Accept.Start.{server_run-IsHandled}
use httpserv.Jobs.Pool.{Pool}
use mathlib.Core.Path.{subst}
use httpserv.Jobs.Pool.Signals.{nobody}
use httpserv.Jobs.Pool.Signals.Serves.{Services, none_yet, one_more}
use httpserv.Jobs.Pool.Signals.Rest.{IsAtRest}
use httpserv.Jobs.Pool.Signals.Taken.{rest-Service}
use httpserv.Server.Accept.Drain.{AllServed, server_drains}
use httpserv.Server.Accept.Progress.{Advances, server_run-Advances}

-- A system with one socket, and OpenSSL with one pair of files.
abbrev pub sys : Sockets
sys = record {
  inet_pton = λ akind ip. true;
  socket = λ akind. some 3;
  bind = λ fd akind ip port. port == 8080;
  listen = λ fd. true;
}

abbrev pub openssl : OpenSsl
openssl = record {
  use_certificate = λ cert. true;
  use_private_key = λ key. true;
  check_private_key = λ key cert. false;
}

abbrev trusting : OpenSsl
trusting = record openssl { check_private_key = λ key cert. true }

abbrev calls : List (Setup Bytes)
calls = tls (some (codes "key")) (some (codes "cert")) ∷ resources none ∷ []

server_life_complete_example :
    (s : Option (Server Bytes)) × (es : List Event) × (gs : List Event) × ((server_new sys
          (codes "::")
          8080
          ipv4
        >>= setup trusting calls)
      ≡ returns s es)
    × (destroy s ≡ returns tt gs)
    × (closings (es ++ gs) ≡ opened sys (codes "::") ipv4)
server_life_complete_example =
    server_life_complete sys trusting (codes "::") 8080 ipv4 calls (refl, tt)

abbrev server : Server Bytes
server = record {
  conn = sck_conn (some 3);
  ckind = sck;
  akind = ipv4;
  tp = false;
  alive = false;
  keep_alive = false;
  ip = codes "::";
  port = 8080;
  router = none;
  resload = none;
}

abbrev nothing : Functions
nothing f a = none

-- One connection is handed over to the only worker, the next one comes behind an interrupt.
served_test :
    (u : System Bytes) × (v : System Bytes) × (server_run sys server 1 ≡ returns (loops u) [])
    × Reach nothing u v
    × (v.phase ≡ ended)
unfolding server_run ready connect pool_new queue_new add_work pop_job try_pop job_new
    destroy_connection
served_test = (
  _,
  _,
  refl,
  next
      (next
        (next
          (next
            (next
              (next
                (next (next (next here (enter refl refl)) (accept (some 4) refl refl))
                  (hand refl refl refl (nobody refl)))
                (work (first_take [] [] {w = executing 0} refl)))
              (enter refl refl))
            (interrupt refl))
          (accept (some 5) refl refl))
        (drop refl refl refl))
      (leave refl refl),
  refl,
)

server_run-IsHandled_example : IsHandled served_test.1
server_run-IsHandled_example = server_run-IsHandled nothing sys server 1 served_test.2 served_test.3

opened_test :
    (u : System Bytes) × (v : System Bytes) × (server_run sys server 1 ≡ returns (loops u) [])
    × Reach nothing u v
    × (v.phase ≡ accepting)
unfolding server_run ready pool_new
opened_test = (_, _, refl, next here (enter refl refl), refl)

server_run-Advances_example : Advances nothing (some 4) opened_test.1
server_run-Advances_example =
    let at : opened_test.1.phase ≡ accepting = opened_test.4 in
    server_run-Advances nothing sys 3 server 1 (some 4)
      (record { holds = inl (refl, refl); idle = refl }) opened_test.2 opened_test.3 (λ e. cc)

finish_main_lem_example :
    (gs : List Event) × (finish_main served_test.1.server 0 ≡ returns 0 gs)
    × (closings (served_test.1.events ++ gs) ≡ fds served_test.1.dropped ++ some 3 ∷ [])
finish_main_lem_example =
    finish_main_lem nothing sys 3 server 1 (record { holds = inl (refl, refl); idle = refl })
      served_test.2 served_test.3 served_test.4

-- Two connections for two workers, of which the first never comes to an end.
abbrev second_ends : ℕ → Bool
second_ends p = p == 1

drained_test :
    (u : System Bytes) × (v : System Bytes) × (q : Pool) × (server_run sys server 2
      ≡ returns (loops u) [])
    × Reach nothing u v
    × Services nothing second_ends v.pool 4 q
    × (q.workers ≡ executing 0 ∷ (waiting ∷ []))
    × (length v.handed ≡ 2)
    × (v.pool.memory.size ≡ 2)
unfolding server_run ready connect pool_new queue_new add_work pop_job try_pop job_new
drained_test = (
  _,
  _,
  _,
  refl,
  next
      (next
        (next
          (next (next (next here (enter refl refl)) (accept (some 4) refl refl))
            (hand refl refl refl (nobody refl)))
          (enter refl refl))
        (accept (some 5) refl refl))
      (hand refl refl refl (nobody refl)),
  one_more
      (one_more
        (one_more (one_more none_yet (first_take [] (looping ∷ []) {w = executing 0} refl, tt, tt))
          (first_take (executing 0 ∷ []) [] {w = executing 1} refl, tt, tt))
        (finish (executing 0 ∷ []) [] 1 _ refl, tt, refl))
      (first_take (executing 0 ∷ []) [] {w = waiting} refl, tt, tt),
  refl,
  refl,
  refl,
)

server_drains_example :
    let v = drained_test.1 in
    let q = drained_test.2 in
    (4 ≤ v.pool.memory.size + v.pool.memory.size + 4)
    × Reach nothing v (record v { pool = q })
    × (length q.workers ≡ 2)
    × AllServed second_ends v q
server_drains_example =
    server_drains nothing second_ends sys server 2 4 drained_test.3 drained_test.4 drained_test.5
      (λ r one.
        rest-Service nothing second_ends
          (subst (All (IsAtRest second_ends)) (sym drained_test.6) (refl, (tt, tt))) one)
