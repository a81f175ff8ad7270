-- ===== src/Tests/Cancels.antt =====
-- An instance for the cancellation of the workers of a pool.
use httpserv.Prelude.{◌≡◌, true, false, [], ◌∷◌, length, arith}
use httpserv.Jobs.Queue.{queue_new}
use httpserv.Jobs.Pool.{waiting, woken, Pool}
use httpserv.Jobs.Pool.Cancel.{alive, ended, Stopping, request, act, wake, CancelReach, here, next}
use httpserv.Jobs.Pool.Cancel.Ends.{ends, stopping, CancelReach-stuck}
use httpserv.Tests.Pools.{twice}

abbrev two_waiting : Pool
two_waiting = record { memory = queue_new; workers = waiting ∷ (waiting ∷ []); executed = [] }

abbrev one_gone : Stopping
one_gone = record { memory = queue_new; locked = true; threads = ended ∷ (alive waiting true ∷ []) }

abbrev other_woken : Stopping
other_woken = record {
  memory = queue_new;
  locked = true;
  threads = ended ∷ (alive woken true ∷ []);
}

one_gone-CancelReach : CancelReach twice (stopping two_waiting) one_gone
one_gone-CancelReach =
    next
      (next (next here (request [] (alive waiting false ∷ []) waiting false))
        (request (alive waiting true ∷ []) [] waiting false))
      (act [] (alive waiting true ∷ []))

CancelReach-stuck_example :
    (ends other_woken.threads ≡ 1)
    × (length other_woken.threads ≡ length two_waiting.workers)
    × (other_woken.memory.size ≡ one_gone.memory.size)
CancelReach-stuck_example =
    CancelReach-stuck twice two_waiting {s = one_gone} {t = other_woken} one_gone-CancelReach
      (omega arith) (next here (wake (ended ∷ []) [] true))
