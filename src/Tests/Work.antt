-- ===== src/Tests/Work.antt =====
-- Instances for the jobs and their queue.
use httpserv.Prelude.{◌≡◌, [], ◌∷◌, some, none}
use httpserv.Jobs.{Task}
use httpserv.Jobs.Queue.{Memory, queue_new}
use httpserv.Jobs.Queue.History.{submit, take, run, run_list, run-run_list}

abbrev task : Task
task = record { function = some 1; arg = 5 }

run-run_list_example :
    (m : Memory) × (run queue_new (submit task ∷ take ∷ take ∷ [])
      ≡ some (some task ∷ none ∷ [], m))
unfolding run_list
run-run_list_example = run-run_list (submit task ∷ take ∷ take ∷ [])
