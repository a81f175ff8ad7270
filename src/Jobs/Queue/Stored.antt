-- ===== src/Jobs/Queue/Stored.antt =====
-- What a job in memory was submitted as: no call on the queue changes it.
use httpserv.Prelude.{
  ℕ, ◌+◌, ◌-◌, ◌≡◌, ◌<◌, refl, sym, ap, ◌∙◌, ==_iff, Option, some, none, arith, ◌==◌, Option-cases,
  Bool-cases, inl, inr, ◌>>=◌,
}
use mathlib.Core.Path.{subst}
use httpserv.Jobs.{Task, Job, job_new}
use httpserv.Jobs.Queue.{Cells, update, Memory, write_next, add_job, add_job_at, add_work, pop_job}

-- A job of the task `t` is at the address `p`.
abbrev pub Stored : Cells → ℕ → Task → Type 0
Stored cells p t = (job : Job) × (cells p ≡ some job) × (job.task ≡ t)

-- The task of every job stays as it is.
abbrev pub Keeps : Cells → Cells → Type 0
Keeps cells cells' = (p : ℕ) (t : Task) → Stored cells p t → Stored cells' p t

-- A write to a job that leaves its task alone.
pub Keeps-update :
    (cells : Cells) (q : ℕ) (old new : Job)
    → cells q ≡ some old
    → new.task ≡ old.task
    → Keeps cells (update cells q new)
Keeps-update cells q old new here same p t (job, at_p, task) = elim (Bool-cases (q == p)) [
  | inl hit ↦ (new, rw (hit) refl, ground (arith, at_p, here))
  | inr miss ↦ (job, rw (miss) at_p, task)
]

pub >>=-some :
    {A B : Type 0} (o : Option A) (f : A → Option B) {b : B}
    → (o >>= f) ≡ some b
    → (a : A) × (o ≡ some a) × (f a ≡ some b)
>>=-some none f e = cc
>>=-some (some a) f e = (a, refl, e)

-- Every job stays where it is, with its task and its result.
abbrev pub Preserves : Cells → Cells → Type 0
Preserves cells cells' =
    (p : ℕ) (job : Job)
    → cells p ≡ some job
    → (job' : Job) × (cells' p ≡ some job') × (job'.task ≡ job.task) × (job'.jres ≡ job.jres)

pub Preserves-Keeps : (cells cells' : Cells) → Preserves cells cells' → Keeps cells cells'
Preserves-Keeps cells cells' h p t (job, here, task) =
    let (job', here', same, _) = h p job here in (job', here', same ∙ task)

Preserves-trans :
    (cells cells' cells'' : Cells)
    → Preserves cells cells'
    → Preserves cells' cells''
    → Preserves cells cells''
Preserves-trans cells cells' cells'' h k p job here =
    let (job', here', task, jres) = h p job here in
    let (job'', here'', task', jres') = k p job' here' in
    (job'', here'', task' ∙ task, jres' ∙ jres)

-- A write to a link.
relink-Preserves :
    (cells : Cells) (q : ℕ) (old : Job) (next : Option ℕ)
    → cells q ≡ some old
    → Preserves cells (update cells q (record old { next = next }))
relink-Preserves cells q old next here p job at_p = elim (Bool-cases (q == p)) [
  | inl hit ↦
      let same : q ≡ p = (==_iff q p).0 hit in
      let one : some old ≡ some job = sym here ∙ ap cells same ∙ at_p in
      let same_job : old ≡ job = cc in
      (
        record old { next = next },
        rw (hit) refl,
        ap (λ (j : Job). j.task) same_job,
        ap (λ (j : Job). j.jres) same_job,
      )
  | inr miss ↦ (job, rw (miss) at_p, refl, refl)
]

write_next-Preserves :
    (cells cells' : Cells) (p next : Option ℕ)
    → write_next cells p next ≡ some cells'
    → Preserves cells cells'
unfolding write_next
write_next-Preserves cells cells' none next e = cc
write_next-Preserves cells cells' (some q) next e = elim (Option-cases (cells q)) [
  | inl free ↦ let e' : none ≡ some cells' = rw (free, write_next) at e in cc
  | inr (job, here) ↦
      let e' : some (update cells q (record job { next = next })) ≡ some cells' =
        rw (here, write_next) at e in
      let same : update cells q (record job { next = next }) ≡ cells' = cc in
      subst (Preserves cells) same (relink-Preserves cells q job next here)
]

-- A job that is new in memory, at the first unused address.
fresh-Keeps :
    (m : Memory) (task : Task) (p : ℕ) (t : Task)
    → p < m.free
    → Stored m.cells p t
    → Stored (update m.cells m.free (job_new task)) p t
fresh-Keeps m task p t below (job, here, same) = (job, ground (arith, here), same)

fresh-Stored :
    (m : Memory) (task : Task) → Stored (update m.cells m.free (job_new task)) m.free task
unfolding job_new
fresh-Stored m task = (job_new task, ground arith, refl)

add_linked-Preserves :
    (m m' : Memory) (h job : ℕ)
    → add_job_at (some h) m job ≡ some m'
    → Preserves m.cells m'.cells × (m'.free ≡ m.free)
unfolding add_job_at
add_linked-Preserves m m' h job e =
    let (detached, e1, r1) = >>=-some (write_next m.cells (some job) none) _ e in
    let (linked, e2, r2) = >>=-some (write_next detached m.tail (some job)) _ r1 in
    let same : record m { cells = linked; tail = some job; size = m.size + 1 } ≡ m' = cc in
    subst (λ (m' : Memory). Preserves m.cells m'.cells × (m'.free ≡ m.free)) same
      (
        Preserves-trans m.cells detached linked
            (write_next-Preserves m.cells detached (some job) none e1)
            (write_next-Preserves detached linked m.tail (some job) e2),
        refl,
      )

add_job-Preserves :
    (m m' : Memory) (job : ℕ)
    → add_job m job ≡ some m'
    → Preserves m.cells m'.cells × (m'.free ≡ m.free)
unfolding add_job
add_job-Preserves m m' job e = elim (Option-cases m.head) [
  | inl empty ↦
      let e' : some (record m { tail = some job; head = some job; size = m.size + 1 }) ≡ some m' =
        rw (empty, add_job_at) at e in
      let same : record m { tail = some job; head = some job; size = m.size + 1 } ≡ m' = cc in
      subst (λ (m' : Memory). Preserves m.cells m'.cells × (m'.free ≡ m.free)) same
        ((λ p job h. (job, h, refl, refl)), refl)
  | inr (h, full) ↦
      add_linked-Preserves m m' h job (subst (λ o. add_job_at o m job ≡ some m') full e)
]

job_new-task : (task : Task) → (job_new task).task ≡ task
unfolding job_new
job_new-task task = refl

-- Added work keeps the tasks of the jobs that were there, and its own stands at the first address
-- that was unused.
pub add_work-Stored :
    (m m' : Memory) (task : Task)
    → add_work m task ≡ some m'
    → ((p : ℕ) (t : Task) → p < m.free → Stored m.cells p t → Stored m'.cells p t)
      × Stored m'.cells m.free task
      × (m'.free ≡ m.free + 1)
unfolding add_work
add_work-Stored m m' task e =
    let base : Memory = record m {
      cells = update m.cells m.free (job_new task);
      free = m.free + 1;
    } in
    let (kept, free) = add_job-Preserves base m' m.free e in
    let keeps = Preserves-Keeps base.cells m'.cells kept in
    (
      λ p t below s. keeps p t (fresh-Keeps m task p t below s),
      keeps m.free task (fresh-Stored m task),
      free,
    )

-- Added work preserves the jobs that were there, and its own is new.
pub add_work-Preserves :
    (m m' : Memory) (task : Task)
    → add_work m task ≡ some m'
    → ((p : ℕ) (job : Job)
        → p < m.free
        → m.cells p ≡ some job
        → (job' : Job) × (m'.cells p ≡ some job') × (job'.task ≡ job.task) × (job'.jres ≡ job.jres))
      × ((job : Job) × (m'.cells m.free ≡ some job)
          × (job.task ≡ task)
          × (job.jres ≡ (job_new task).jres))
      × (m'.free ≡ m.free + 1)
unfolding add_work
add_work-Preserves m m' task e =
    let base : Memory = record m {
      cells = update m.cells m.free (job_new task);
      free = m.free + 1;
    } in
    let (kept, free) = add_job-Preserves base m' m.free e in
    let (job, here, same, new) = kept m.free (job_new task) (ground arith) in
    (
      λ p job below here. kept p job (ground (arith, here)),
      (job, here, same ∙ job_new-task task, new),
      free,
    )

-- The part of `pop_job` for a queue that is not empty.
abbrev taken : Memory → Option (Option ℕ × Memory)
taken m = do
  p ← m.head
  job ← m.cells p
  cells ← write_next m.cells (some p) none
  some (some p, record m { head = job.next; cells = cells; size = m.size - 1 })

popped-Preserves :
    (m m' : Memory) (o : Option ℕ)
    → taken m ≡ some (o, m')
    → Preserves m.cells m'.cells × (m'.free ≡ m.free)
popped-Preserves m m' o e =
    let (p, e1, r1) = >>=-some m.head _ e in
    let (job, e2, r2) = >>=-some (m.cells p) _ r1 in
    let (cells, e3, r3) = >>=-some (write_next m.cells (some p) none) _ r2 in
    let same : record m { head = job.next; cells = cells; size = m.size - 1 } ≡ m' = cc in
    subst (λ (m' : Memory). Preserves m.cells m'.cells × (m'.free ≡ m.free)) same
      (write_next-Preserves m.cells cells (some p) none e3, refl)

pub pop_job-Preserves :
    (m m' : Memory) (o : Option ℕ)
    → pop_job m ≡ some (o, m')
    → Preserves m.cells m'.cells × (m'.free ≡ m.free)
unfolding pop_job
pop_job-Preserves m m' o e = elim (Bool-cases (m.size == 0)) [
  | inl empty ↦
      let same : m ≡ m' = ground (arith, e, empty) in
      subst (λ (m' : Memory). Preserves m.cells m'.cells × (m'.free ≡ m.free)) same
        ((λ p job h. (job, h, refl, refl)), refl)
  | inr full ↦ popped-Preserves m m' o (rw full at e)
]

pub pop_job-Stored :
    (m m' : Memory) (o : Option ℕ)
    → pop_job m ≡ some (o, m')
    → Keeps m.cells m'.cells × (m'.free ≡ m.free)
pop_job-Stored m m' o e =
    let (kept, free) = pop_job-Preserves m m' o e in (Preserves-Keeps m.cells m'.cells kept, free)
