-- ===== src/Jobs/Queue/History.antt =====
-- Histories of calls on the queue against a queue that is a plain list.
use httpserv.Prelude.{ℕ, ◌≡◌, refl, ap, ◌∙◌, List, [], ◌∷◌, ◌++◌, Option, some, none, ◌>>=◌}
use mathlib.Core.List.{map, map-append}
use httpserv.Jobs.{Task}
use httpserv.Jobs.Queue.{Memory, queue_new, pop_job, add_work}
use httpserv.Jobs.Queue.Fifo.{
  IsQueue, queue_new-IsQueue, add_work-IsQueue, pop_job_empty, pop_job-IsQueue,
}

pub data Op : Type 0 where
  submit : Task → Op
  take : Op

-- The task of the job that was popped.
abbrev task_at : Memory → Option ℕ → Option (Option Task)
task_at m none = some none
task_at m (some p) = elim (m.cells p) [ none ↦ none | some job ↦ some (some job.task) ]

abbrev pub Trace : Type 0
Trace = List (Option Task)

abbrev more : Option Task → Option (Trace × Memory) → Option (Trace × Memory)
more t none = none
more t (some (ts, m)) = some (t ∷ ts, m)

-- The calls one after another, with what each take gave; `none` is a crash.
unfoldable pub run : Memory → List Op → Option (Trace × Memory)
run m [] = some ([], m)
run m (submit task ∷ ops) = do m' ← add_work m task; run m' ops
run m (take ∷ ops) = do (p, m') ← pop_job m; t ← task_at m' p; more t (run m' ops)

-- The same on a list of tasks.
unfoldable pub run_list : List Task → List Op → Trace
run_list q [] = []
run_list q (submit task ∷ ops) = run_list (q ++ task ∷ []) ops
run_list [] (take ∷ ops) = none ∷ run_list [] ops
run_list (t ∷ q) (take ∷ ops) = some t ∷ run_list q ops

abbrev tasks : List (ℕ × Task) → List Task
tasks = map λ (e : ℕ × Task). e.1

Refines : Memory → List (ℕ × Task) → List Op → Type 0
Refines m xs ops = (m' : Memory) × (run m ops ≡ some (run_list (tasks xs) ops, m'))

run-Refines : (m : Memory) (xs : List (ℕ × Task)) (ops : List Op) → IsQueue m xs → Refines m xs ops
unfolding Refines run run_list
run-Refines m xs [] q = (m, refl)
run-Refines m xs (submit task ∷ ops) q =
    let (m1, added, q1, _) = add_work-IsQueue m xs task q in
    let (m2, later) = run-Refines m1 (xs ++ (m.free, task) ∷ []) ops q1 in
    (
      m2,
      rw (added, ◌>>=◌)
          (later
            ∙ ap (λ l. some (run_list l ops, m2))
                (map-append (λ (e : ℕ × Task). e.1) xs ((m.free, task) ∷ []))),
    )
run-Refines m [] (take ∷ ops) q =
    let (m2, later) = run-Refines m [] ops q in
    (m2, rw (pop_job_empty m q, ◌>>=◌) (rw (later, more)))
run-Refines m ((x, t) ∷ xs) (take ∷ ops) q =
    let (m1, popped, q1, _, left) = pop_job-IsQueue m x t xs q in
    let (m2, later) = run-Refines m1 xs ops q1 in
    (
      m2,
      rw (popped, ◌>>=◌)
          (rw (left.1, task_at)
            (rw (later, more) (ap (λ s. some (some s ∷ run_list (tasks xs) ops, m2)) left.2))),
    )

-- Every history of submissions and takes on a new queue runs through without a crash, and each take
-- gives just what a plain first-in first-out list of the submitted tasks gives.
pub run-run_list : (ops : List Op) → (m : Memory) × (run queue_new ops ≡ some (run_list [] ops, m))
unfolding Refines
run-run_list ops = run-Refines queue_new [] ops queue_new-IsQueue
