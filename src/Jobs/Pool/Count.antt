-- ===== src/Jobs/Pool/Count.antt =====
-- How often a job is in each of the places of a pool.
use httpserv.Prelude.{ℕ, zero, suc, ◌+◌, ◌≡◌, refl, List, [], ◌∷◌, ◌++◌, Option, arith, ◌==◌}
pub use httpserv.Prelude.{one_if, times}
use httpserv.Jobs.{Task, Job}
use httpserv.Jobs.Queue.{Cells, update}
use httpserv.Jobs.Queue.Chain.{Chain}
use httpserv.Jobs.Pool.{Phase, looping, waiting, woken, executing, idle_workers}

-- How often the job at `p` is queued, held by a worker, and executed.
abbrev pub queued : ℕ → List (ℕ × Task) → ℕ
queued p [] = 0
queued p ((x, _) ∷ xs) = one_if (x == p) + queued p xs

abbrev pub held : ℕ → List Phase → ℕ
held p [] = 0
held p (executing x ∷ ws) = one_if (x == p) + held p ws
held p (_ ∷ ws) = held p ws

pub queued-append :
    (p x : ℕ) (t : Task) (xs : List (ℕ × Task))
    → queued p (xs ++ (x, t) ∷ []) ≡ queued p xs + one_if (x == p)
queued-append p x t [] = omega arith
queued-append p x t ((y, s) ∷ xs) = omega (arith, queued-append p x t xs)

pub held-append : (p : ℕ) (vs ws : List Phase) → held p (vs ++ ws) ≡ held p vs + held p ws
held-append p [] ws = omega arith
held-append p (executing x ∷ vs) ws = omega (arith, held-append p vs ws)
held-append p (looping ∷ vs) ws = held-append p vs ws
held-append p (waiting ∷ vs) ws = held-append p vs ws
held-append p (woken ∷ vs) ws = held-append p vs ws

-- A job that is not in the queue may change.
pub Chain-other :
    (cells : Cells) (q lo hi : ℕ) (job : Job) (p : Option ℕ) (xs : List (ℕ × Task))
    → queued q xs ≡ 0
    → Chain cells lo hi p xs
    → Chain (update cells q job) lo hi p xs
Chain-other cells q lo hi job p [] h c = c
Chain-other cells q lo hi job p ((x, t) ∷ xs) h c =
    let (at_x, stored, task, rest) = c.3 in
    (
      c.0,
      c.1,
      c.2,
      (
        at_x,
        ground (arith, stored),
        task,
        Chain-other cells q (x + 1) hi job at_x.next xs (ground arith) rest,
      ),
    )

pub held-idle_workers : (p n : ℕ) → held p (idle_workers n) ≡ 0
held-idle_workers p zero = refl
held-idle_workers p (suc n) = held-idle_workers p n
