-- ===== src/Jobs/Queue/Chain.antt =====
-- Linked lists of jobs in memory, at addresses that rise along the list.
use httpserv.Prelude.{
  ℕ, ◌+◌, ◌≤◌, ◌<◌, ◌≡◌, refl, List, [], ◌∷◌, ◌++◌, Option, some, none, arith, ◌⊎◌,
}
use httpserv.Jobs.{Task, Job, job_new}
use httpserv.Jobs.Queue.{Cells, update}

-- The jobs of the list that starts at `p`, each with its address, which is at least `lo` and below
-- `hi`.
abbrev pub Chain : Cells → ℕ → ℕ → Option ℕ → List (ℕ × Task) → Type 0
Chain cells lo hi p [] = p ≡ none
Chain cells lo hi p ((x, task) ∷ xs) =
    (lo ≤ x)
    × (x < hi)
    × (p ≡ some x)
    × ((job : Job) × (cells x ≡ some job) × (job.task ≡ task) × Chain cells (x + 1) hi job.next xs)

-- The address of the last job of a list that starts with the one at `x`.
abbrev pub last_address : ℕ → List (ℕ × Task) → ℕ
last_address x [] = x
last_address x ((y, _) ∷ xs) = last_address y xs

pub Chain-mono :
    (cells : Cells) (lo lo' hi : ℕ) (p : Option ℕ) (xs : List (ℕ × Task))
    → lo' ≤ lo
    → Chain cells lo hi p xs
    → Chain cells lo' hi p xs
Chain-mono cells lo lo' hi p [] h c = c
Chain-mono cells lo lo' hi p ((x, t) ∷ xs) h c = (omega arith, c.1, c.2, c.3)

-- A job outside the range of a list may change.
pub Chain-update :
    (cells : Cells) (q lo hi : ℕ) (job : Job) (p : Option ℕ) (xs : List (ℕ × Task))
    → (q < lo) ⊎ (hi ≤ q)
    → Chain cells lo hi p xs
    → Chain (update cells q job) lo hi p xs
Chain-update cells q lo hi job p [] h c = c
Chain-update cells q lo hi job p ((x, t) ∷ xs) h c =
    let (at_x, here, task, rest) = c.3 in
    (
      c.0,
      c.1,
      c.2,
      (
        at_x,
        ground arith,
        task,
        Chain-update cells q (x + 1) hi job at_x.next xs (omega arith) rest,
      ),
    )

pub last_address_ge :
    (cells : Cells) (x hi : ℕ) (p : Option ℕ) (xs : List (ℕ × Task))
    → Chain cells (x + 1) hi p xs
    → x ≤ last_address x xs
last_address_ge cells x hi p [] c = omega arith
last_address_ge cells x hi p ((y, t) ∷ xs) c =
    omega (arith, last_address_ge cells y hi (c.3.0).next xs c.3.3)

-- The job that a list ends with.
pub last_job :
    (cells : Cells) (lo hi : ℕ) (p : Option ℕ) (x : ℕ) (t : Task) (xs : List (ℕ × Task))
    → Chain cells lo hi p ((x, t) ∷ xs)
    → (job : Job) × (cells (last_address x xs) ≡ some job) × (last_address x xs < hi)
last_job cells lo hi p x t [] c = (c.3.0, c.3.1, c.1)
last_job cells lo hi p x t ((y, s) ∷ xs) c = last_job cells (x + 1) hi (c.3.0).next y s xs c.3.3

-- A new job at `hi`, linked to from the last one, stands at the end of the list.
pub Chain-append :
    (cells : Cells) (lo hi : ℕ) (p : Option ℕ) (x : ℕ) (t : Task) (xs : List (ℕ × Task))
    (last : Job) (task : Task)
    → Chain cells lo hi p ((x, t) ∷ xs)
    → cells (last_address x xs) ≡ some last
    → Chain
        (update
          (update cells hi (job_new task))
          (last_address x xs)
          (record last { next = some hi }))
        lo
        (hi + 1)
        p
        (((x, t) ∷ xs) ++ (hi, task) ∷ [])
unfolding job_new
Chain-append cells lo hi p x t [] last task c e = (
  c.0,
  omega (arith, c.1),
  c.2,
  (
    record last { next = some hi },
    ground arith,
    ground (arith, c.3.1, c.3.2),
    (omega (arith, c.1), omega arith, refl, (job_new task, ground (arith, c.1), refl, refl)),
  ),
)
Chain-append cells lo hi p x t ((y, s) ∷ xs) last task c e =
    let (at_x, here, same, rest) = c.3 in
    let later = last_address_ge cells y hi (rest.3.0).next xs rest.3.3 in
    (
      c.0,
      omega (arith, c.1),
      c.2,
      (
        at_x,
        ground (arith, rest.0, c.1),
        same,
        Chain-append cells (x + 1) hi at_x.next y s xs last task rest e,
      ),
    )
