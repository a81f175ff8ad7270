-- ===== src/Jobs/Queue/Fifo.antt =====
-- The linked queue is a first-in first-out queue, and never goes through NULL.
use httpserv.Prelude.{
  ℕ, ◌+◌, ◌-◌, ◌<◌, ◌≡◌, refl, sym, ap, ◌∙◌, List, [], ◌∷◌, ◌++◌, Option, some, none, arith, length,
  length-append, ◌>>=◌,
}
use mathlib.Core.Path.{fun_ext}
use httpserv.Jobs.{Task, Job, job_new}
use httpserv.Jobs.Queue.{
  Cells, update, write_next, Memory, queue_new, add_job_at, pop_job, add_work,
}
use httpserv.Jobs.Queue.Chain.{
  Chain, Chain-mono, Chain-update, last_address, last_job, Chain-append,
}

abbrev pub TailIs : Option ℕ → List (ℕ × Task) → Type 0
TailIs tail [] = Unit
TailIs tail ((x, _) ∷ xs) = tail ≡ some (last_address x xs)

-- The memory holds a queue of these jobs, the oldest first.
pub record IsQueue (m : Memory) (xs : List (ℕ × Task)) : Type 0 where
  pub chain : Chain m.cells 0 m.free m.head xs
  pub counted : m.size ≡ length xs
  pub ends : TailIs m.tail xs

pub queue_new-IsQueue : IsQueue queue_new []
unfolding queue_new
queue_new-IsQueue = record { chain = refl; counted = refl; ends = tt }

last_address-concat :
    (x y : ℕ) (xs : List (ℕ × Task)) (t : Task) → last_address x (xs ++ (y, t) ∷ []) ≡ y
last_address-concat x y [] t = refl
last_address-concat x y ((z, _) ∷ xs) t = last_address-concat z y xs t

TailIs-tail :
    (tail : Option ℕ) (x : ℕ) (t : Task) (xs : List (ℕ × Task))
    → TailIs tail ((x, t) ∷ xs)
    → TailIs tail xs
TailIs-tail tail x t [] h = tt
TailIs-tail tail x t ((y, _) ∷ xs) h = h

write_next_at :
    (cells : Cells) (p : ℕ) (job : Job) (next : Option ℕ)
    → cells p ≡ some job
    → write_next cells (some p) next ≡ some (update cells p (record job { next = next }))
unfolding write_next
write_next_at cells p job next h = rw (h, write_next)

update_twice :
    (cells : Cells) (p : ℕ) (job : Job) → update (update cells p job) p job ≡ update cells p job
update_twice cells p job = fun_ext λ q. ground arith

-- The branch of a queue that is not empty: the new job ends the list, and the last one leads to it.
link_last :
    (m : Memory) (x : ℕ) (task : Task) (last : Job) (end : ℕ)
    → m.head ≡ some x
    → m.tail ≡ some end
    → m.cells end ≡ some last
    → end < m.free
    → add_work m task
      ≡ some (record {
        cells =
            update (update m.cells m.free (job_new task)) end (record last { next = some m.free });
        free = m.free + 1;
        head = m.head;
        tail = some m.free;
        size = m.size + 1;
      })
unfolding add_work add_job_at
link_last m x task last end h t there below =
    let base : Cells = update m.cells m.free (job_new task) in
    let detached : write_next base (some m.free) none ≡ some base =
      write_next_at base m.free (job_new task) none (ground arith)
      ∙ ap some (unfold job_new in update_twice m.cells m.free (job_new task)) in
    let linked : write_next base m.tail (some m.free)
        ≡ some (update base end (record last { next = some m.free })) =
      rw t (write_next_at base end last (some m.free) (ground (arith, there, below))) in
    rw (h, add_job_at) (rw (detached, ◌>>=◌) (rw (linked, ◌>>=◌)))

-- Work that is added to a queue in good order is queued behind all other, at a new address, and the
-- queue stays in good order.
pub add_work-IsQueue :
    (m : Memory) (xs : List (ℕ × Task)) (task : Task)
    → IsQueue m xs
    → (m' : Memory) × (add_work m task ≡ some m')
      × IsQueue m' (xs ++ (m.free, task) ∷ [])
      × (m'.free ≡ m.free + 1)
unfolding add_work job_new
add_work-IsQueue m [] task q = (
  record {
    cells = update m.cells m.free (job_new task);
    free = m.free + 1;
    head = some m.free;
    tail = some m.free;
    size = m.size + 1;
  },
  ground (arith, q.chain),
  record {
    chain = (omega arith, omega arith, refl, (job_new task, ground arith, refl, refl));
    counted = omega (arith, q.counted);
    ends = refl;
  },
  refl,
)
add_work-IsQueue m ((x, t) ∷ xs) task q =
    let (last, there, below) = last_job m.cells 0 m.free m.head x t xs q.chain in
    (
      record {
        cells =
            update (update m.cells m.free (job_new task)) (last_address x xs)
              (record last { next = some m.free });
        free = m.free + 1;
        head = m.head;
        tail = some m.free;
        size = m.size + 1;
      },
      link_last m x task last (last_address x xs) q.chain.2 q.ends there below,
      record {
        chain = Chain-append m.cells 0 m.free m.head x t xs last task q.chain there;
        counted = omega (arith, q.counted, length-append xs ((m.free, task) ∷ []));
        ends = ap some (sym (last_address-concat x m.free xs task));
      },
      refl,
    )

pub pop_job_empty : (m : Memory) → IsQueue m [] → pop_job m ≡ some (none, m)
unfolding pop_job
pop_job_empty m q = ground (arith, q.counted)

-- What is popped from a queue in good order that is not empty is its oldest job, with no successor
-- any more, and the queue of the others is in good order.
pub pop_job-IsQueue :
    (m : Memory) (x : ℕ) (t : Task) (xs : List (ℕ × Task))
    → IsQueue m ((x, t) ∷ xs)
    → (m' : Memory) × (pop_job m ≡ some (some x, m'))
      × IsQueue m' xs
      × (m'.free ≡ m.free)
      × ((job : Job) × (m'.cells x ≡ some job) × (job.task ≡ t) × (job.next ≡ none))
unfolding pop_job
pop_job-IsQueue m x t xs q =
    let (job, here, task, rest) = q.chain.3 in
    let cells = update m.cells x (record job { next = none }) in
    (
      record m { head = job.next; cells = cells; size = m.size - 1 },
      ground (arith, q.counted, q.chain.2),
      record {
        chain = Chain-mono cells (x + 1) 0 m.free job.next xs (omega arith) (
            Chain-update m.cells x (x + 1) m.free (record job { next = none }) job.next xs
              (omega arith) rest);
        counted = omega (arith, q.counted);
        ends = TailIs-tail m.tail x t xs q.ends;
      },
      refl,
      (record job { next = none }, ground arith, task, refl),
    )
