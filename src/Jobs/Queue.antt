-- ===== src/Jobs/Queue.antt =====
-- `threadpool_job_queue_t` of src/job.c, a linked list in memory with its two ends and its size. Each
-- function holds the mutex of the queue, so it is one step. `none` as a result is an access through
-- NULL or to an address with no job.
pub mod Chain
pub mod End
pub mod Fifo
pub mod History
pub mod Stored
use httpserv.Prelude.{
  ℕ, ◌+◌, ◌-◌, Bool, true, false, ◌==◌, Option, some, none, ◌>>=◌, if◌then◌else◌,
}
use httpserv.Jobs.{Task, Job, job_new}

abbrev pub Cells : Type 0
Cells = ℕ → Option Job

abbrev pub update : Cells → ℕ → Job → Cells
update cells p job q = if p == q then some job else cells q

-- The memory, where addresses from `free` on are unused, and the queue.
pub record Memory : Type 0 where
  pub cells : Cells
  pub free : ℕ
  pub head : Option ℕ
  pub tail : Option ℕ
  pub size : ℕ

-- `threadpool_job_queue_new`, in empty memory.
unfoldable pub queue_new : Memory
queue_new = record { cells = λ p. none; free = 0; head = none; tail = none; size = 0 }

-- `p->next = next`
unfoldable pub write_next : Cells → Option ℕ → Option ℕ → Option Cells
write_next cells none next = none
write_next cells (some p) next = elim (cells p) [
  | none ↦ none
  | some job ↦ some (update cells p (record job { next = next }))
]

-- `threadpool_job_queue_add_job`, by the value of `queue->head`.
unfoldable pub add_job_at : Option ℕ → Memory → ℕ → Option Memory
unfolding write_next
add_job_at none m job = some (record m { tail = some job; head = some job; size = m.size + 1 })
add_job_at (some _) m job = do
  detached ← write_next m.cells (some job) none
  linked ← write_next detached m.tail (some job)
  some (record m { cells = linked; tail = some job; size = m.size + 1 })

unfoldable pub add_job : Memory → ℕ → Option Memory
unfolding add_job_at
add_job m job = add_job_at m.head m job

-- `threadpool_job_queue_pop_job`: the address of the first job, or NULL.
unfoldable pub pop_job : Memory → Option (Option ℕ × Memory)
unfolding write_next
pop_job m = if m.size == 0 then some (none, m) else do
  p ← m.head
  job ← m.cells p
  cells ← write_next m.cells (some p) none
  some (some p, record m { head = job.next; cells = cells; size = m.size - 1 })

-- The part of `threadpool_add_work` of src/threadpool.c that concerns the queue: a new job, at an
-- address that was unused, is added.
unfoldable pub add_work : Memory → Task → Option Memory
unfolding add_job
add_work m task =
    add_job (record m { cells = update m.cells m.free (job_new task); free = m.free + 1 }) m.free
