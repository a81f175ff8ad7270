-- ===== src/Server/Accept/Handed.antt =====
-- What becomes of the connections that the loop accepts.
use httpserv.Prelude.{
  ℕ, zero, suc, ◌≡◌, refl, sym, ap, ◌∙◌, true, false, List, [], ◌∷◌, ◌++◌, Option, some, arith,
  length, append-nil, length-append, ◌⊎◌, inl, inr,
}
use mathlib.Core.Path.{subst}
use mathlib.Core.List.{map, map-append}
use httpserv.Net.{Event, returns}
use httpserv.Net.Connector.{Conn, destroy_connection}
use httpserv.Jobs.{Task}
use httpserv.Jobs.Exec.{Functions}
use httpserv.Jobs.Queue.{Memory, add_work}
use httpserv.Jobs.Pool.{Pool, WorkerStep}
use httpserv.Jobs.Pool
use httpserv.Jobs.Pool.Signals.{Signalled}
use httpserv.Jobs.Pool.Signals.Awake.{Signalled-IsOnce}
use httpserv.Jobs.Pool.Once.{IsOnce, submit-IsOnce, WorkerStep-IsOnce}
use httpserv.Jobs.Pool.Tasks.{HasTasks, add_work-HasTasks, WorkerStep-HasTasks}
use httpserv.Server.Life.Ownership.{closings, closings-append}
use httpserv.Server.Accept.Descriptors.{fd_of, connect-fd_of, closings-destroy_connection}
use httpserv.Server.Accept.{
  WorkerData, Phase, testing, accepting, ended, accepted, System, worker_task, connect, data_for,
  Step, enter, leave, accept, hand, drop, interrupt, work, Reach, here, next,
}

-- The tasks for the first `n` connections that are handed over.
abbrev pub worker_tasks : ℕ → List Task
worker_tasks zero = []
worker_tasks (suc n) = worker_tasks n ++ worker_task n ∷ []

module _ {Regex : Type 0} where
  abbrev pub fds : List (WorkerData Regex) → List (Option ℕ)
  fds = map λ (d : WorkerData Regex). fd_of d.conn

  -- The connection that the loop has accepted and not yet passed on.
  abbrev pub pending : Phase Regex → List (WorkerData Regex)
  pending (accepted d) = d ∷ []
  pending _ = []

  -- The phases in which the loop can be after it has closed a connection.
  abbrev pub IsClosing : Phase Regex → Type 0
  IsClosing accepting = ⊥
  IsClosing (accepted d) = ⊥
  IsClosing _ = Unit

  -- What holds in each state: the jobs of the pool are the connections that were handed over, each in
  -- one place; every accepted connection was handed over, in order, or is the one that the loop has
  -- closed, or is still with the loop.
  pub record IsHandled (u : System Regex) : Type 0 where
    pub once : IsOnce u.pool
    pub tasks : HasTasks (worker_tasks (length u.handed)) u.pool.memory
    pub split : fds u.handed ++ (fds u.dropped ++ fds (pending u.phase)) ≡ u.accepts
    pub last :
        (u.dropped ≡ [])
        ⊎ (IsClosing u.phase × (length u.dropped ≡ 1) × (u.server.keep_alive ≡ false))
    pub shut : closings u.events ≡ fds u.dropped

  fds-append : (xs ys : List (WorkerData Regex)) → fds (xs ++ ys) ≡ fds xs ++ fds ys
  fds-append xs ys = map-append (λ (d : WorkerData Regex). fd_of d.conn) xs ys

  none_dropped : (u : System Regex) → IsHandled u → (IsClosing u.phase → ⊥) → u.dropped ≡ []
  none_dropped u h other = elim h.last [ inl e ↦ e | inr (c, _, _) ↦ absurd (other c) ]

  with_pending :
      (u : System Regex) (d : WorkerData Regex)
      → u.phase ≡ accepted d
      → u.dropped ≡ []
      → IsHandled u
      → fds u.handed ++ fd_of d.conn ∷ [] ≡ u.accepts
  with_pending u d at none_yet h =
      ap (λ (x : Phase Regex). fds u.handed ++ fds (pending x)) (sym at)
      ∙ ap (λ (x : List (WorkerData Regex)). fds u.handed ++ (fds x ++ fds (pending u.phase)))
          (sym none_yet)
      ∙ h.split

  one_more :
      (ds : List (WorkerData Regex)) (d : WorkerData Regex)
      → suc (length ds) ≡ length (ds ++ d ∷ [])
  one_more ds d = omega (arith, length-append {0} ds (d ∷ []))

  accept-IsHandled :
      (u : System Regex) (connfd : Option ℕ) (conn : Conn)
      → u.phase ≡ accepting
      → connect u.server.conn u.server.ckind connfd ≡ returns conn []
      → IsHandled u
      → IsHandled (record u {
        phase = accepted (data_for u.server conn);
        accepts = u.accepts ++ connfd ∷ [];
      })
  accept-IsHandled u connfd conn at made h =
      let none_yet : u.dropped ≡ [] = none_dropped u h (λ c. subst IsClosing at c) in
      let before : fds u.handed ≡ u.accepts =
        sym (append-nil (fds u.handed)) ∙ (rw (none_yet, at) at h.split) in
      record {
        once = h.once;
        tasks = h.tasks;
        split =
            rw (none_yet, connect-fd_of u.server.conn conn u.server.ckind connfd made, before) refl;
        last = inl none_yet;
        shut = h.shut;
      }

  hand-IsHandled :
      (run : Functions) (u : System Regex) (d : WorkerData Regex) (m : Memory)
      {ws : List Pool.Phase}
      → u.phase ≡ accepted d
      → add_work u.pool.memory (worker_task (length u.handed)) ≡ some m
      → Signalled u.pool.workers ws
      → IsHandled u
      → IsHandled (record u {
        phase = testing;
        pool = record u.pool { memory = m; workers = ws };
        handed = u.handed ++ d ∷ [];
      })
  hand-IsHandled run u d m at added signal h =
      let none_yet : u.dropped ≡ [] = none_dropped u h (λ c. subst IsClosing at c) in
      record {
        once = Signalled-IsOnce run signal (
            submit-IsOnce u.pool.memory m u.pool.workers u.pool.executed
              (worker_task (length u.handed)) added h.once);
        tasks =
            subst (λ n. HasTasks (worker_tasks n) m) (one_more u.handed d)
              (add_work-HasTasks (worker_tasks (length u.handed)) u.pool.memory m
                (worker_task (length u.handed)) added h.tasks);
        split = rw (none_yet, fds-append, append-nil) (with_pending u d at none_yet h);
        last = inl none_yet;
        shut = h.shut;
      }

  drop-IsHandled :
      (u : System Regex) (d : WorkerData Regex) (es : List Event)
      → u.phase ≡ accepted d
      → u.server.keep_alive ≡ false
      → destroy_connection d.conn d.ckind ≡ returns tt es
      → IsHandled u
      → IsHandled
          (record u { phase = testing; dropped = u.dropped ++ d ∷ []; events = u.events ++ es })
  drop-IsHandled u d es at stopped destroyed h =
      let none_yet : u.dropped ≡ [] = none_dropped u h (λ c. subst IsClosing at c) in
      record {
        once = h.once;
        tasks = h.tasks;
        split = rw (none_yet, append-nil) (with_pending u d at none_yet h);
        last = inr (tt, rw none_yet refl, stopped);
        shut =
            closings-append u.events es
            ∙ rw (h.shut, closings-destroy_connection d.conn d.ckind destroyed, fds-append) refl;
      }

  -- The steps at the test of the loop, and an interrupt.
  enter-IsHandled :
      (u : System Regex)
      → u.phase ≡ testing
      → u.server.keep_alive ≡ true
      → IsHandled u
      → IsHandled (record u { phase = accepting })
  enter-IsHandled u at alive h = record {
    once = h.once;
    tasks = h.tasks;
    split =
        ap (λ (x : Phase Regex). fds u.handed ++ (fds u.dropped ++ fds (pending x))) (sym at)
        ∙ h.split;
    last = elim h.last [ inl e ↦ inl e | inr (_, _, stopped) ↦ cc ];
    shut = h.shut;
  }

  leave-IsHandled :
      (u : System Regex)
      → u.phase ≡ testing
      → IsHandled u
      → IsHandled (record u { phase = ended; server = record u.server { alive = false } })
  leave-IsHandled u at h = record {
    once = h.once;
    tasks = h.tasks;
    split =
        ap (λ (x : Phase Regex). fds u.handed ++ (fds u.dropped ++ fds (pending x))) (sym at)
        ∙ h.split;
    last = elim h.last [ inl e ↦ inl e | inr (_, one, stopped) ↦ inr (tt, one, stopped) ];
    shut = h.shut;
  }

  interrupt-IsHandled :
      (u : System Regex)
      → IsHandled u
      → IsHandled (record u { server = record u.server { keep_alive = false } })
  interrupt-IsHandled u h = record {
    once = h.once;
    tasks = h.tasks;
    split = h.split;
    last = elim h.last [ inl e ↦ inl e | inr (c, one, _) ↦ inr (c, one, refl) ];
    shut = h.shut;
  }

  work-IsHandled :
      (run : Functions) (u : System Regex) (p : Pool)
      → WorkerStep run u.pool p
      → IsHandled u
      → IsHandled (record u { pool = p })
  work-IsHandled run u p step h = record {
    once = WorkerStep-IsOnce run step h.once;
    tasks = WorkerStep-HasTasks (worker_tasks (length u.handed)) run step h.tasks;
    split = h.split;
    last = h.last;
    shut = h.shut;
  }

  Step-IsHandled : (run : Functions) {u v : System Regex} → Step run u v → IsHandled u → IsHandled v
  Step-IsHandled run (enter at alive) h = enter-IsHandled _ at alive h
  Step-IsHandled run (leave at stopped) h = leave-IsHandled _ at h
  Step-IsHandled run (accept connfd at made) h = accept-IsHandled _ connfd _ at made h
  Step-IsHandled run (hand at alive added signal) h = hand-IsHandled run _ _ _ at added signal h
  Step-IsHandled run (drop at stopped destroyed) h = drop-IsHandled _ _ _ at stopped destroyed h
  Step-IsHandled run (interrupt alive) h = interrupt-IsHandled _ h
  Step-IsHandled run (work step) h = work-IsHandled run _ _ step h

  pub Reach-IsHandled :
      (run : Functions) {u v : System Regex} → Reach run u v → IsHandled u → IsHandled v
  Reach-IsHandled run here h = h
  Reach-IsHandled run (next r step) h = Step-IsHandled run step (Reach-IsHandled run r h)
