-- ===== src/Server/Accept/Starve.antt =====
-- A server whose workers all have connections that never come to an end.
use httpserv.Prelude.{ℕ, ◌+◌, ◌≡◌, Bool, length}
use httpserv.Jobs.Exec.{Functions}
use httpserv.Jobs.Pool.Signals.Serves.{IsReturning}
use httpserv.Server.Life.{Server}
use httpserv.Server.Accept.{System, Step, work}

module _ {Regex : Type 0} where
  -- A step other than the end of a job that never returns.
  abbrev pub IsPatient : {run : Functions} {u v : System Regex} → (ℕ → Bool) → Step run u v → Type 0
  IsPatient ends (work step) = IsReturning ends step
  IsPatient ends _ = Unit

  -- Any such steps of the loop, of the workers, and interrupts.
  pub data Continues (run : Functions) (ends : ℕ → Bool) (u : System Regex)
      : System Regex → Type 0 where
    stays : Continues run ends u u
    goes :
        {v w : System Regex}
        → Continues run ends u v
        → (step : Step run v w) → IsPatient ends step
        → Continues run ends u w

  -- What is the same in two states, and how many more jobs are queued in the second.
  record IsStarved (u v : System Regex) : Type 0 where
    workers : v.pool.workers ≡ u.pool.workers
    executed : v.pool.executed ≡ u.pool.executed
    queued : v.pool.memory.size + length u.handed ≡ u.pool.memory.size + length v.handed
