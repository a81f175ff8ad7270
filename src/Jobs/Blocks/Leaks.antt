-- ===== src/Jobs/Blocks/Leaks.antt =====
-- What is left when a result, or a pool with its jobs, has been destroyed.
use httpserv.Prelude.{
  ℕ, zero, suc, ◌+◌, ◌≡◌, ◌==◌, refl, Bool, List, [], ◌∷◌, ◌++◌, length, length-append, Option,
  some, none, arith, times, one_if, if◌then◌else◌, true, ◌>>=◌,
}
use mathlib.Core.Path.{subst}
use httpserv.Memory.{Heap, malloc}
use httpserv.Memory.Owned.{
  times-append, Owns, Owns-same, malloc-Owns, free-Owns, IsClean, IsClean-Owns,
}
use httpserv.Jobs.Blocks.{
  result_new_in, result_destroy, JobBlocks, PoolBlocks, pool_new_in, jobs_new_in, pool_destroy_in,
}
use httpserv.Jobs.Blocks.Owned.{
  worker_structs, worker_rest, job_structs, job_rest, workers_new_in-Owns, jobs_new_in-Owns,
  workers_stop_in-Owns, jobs_destroy_in-Owns,
}

-- A result that is made and destroyed leaves the block of its condition variable, and nothing else.
pub result_new-destroy :
    (h : Heap)
    → IsClean h
    → let made = result_new_in h in
      (h' : Heap) × (result_destroy made.0 made.1 ≡ some h')
      × ((q : ℕ) → h'.live q ≡ (if (made.0).cond == q then true else h.live q))
unfolding result_new_in result_destroy
result_new-destroy h clean =
    let k =
      malloc-Owns h.live _ (malloc (malloc h))
        (malloc-Owns h.live _ (malloc h) (malloc-Owns h.live (λ q. 0) h (IsClean-Owns h clean))) in
    let made = (result_new_in h).0 in
    let (h1, f1, k1) =
      free-Owns h.live made.mutex _ (λ q. one_if (made.struct == q) + one_if (made.cond == q)) _
        (λ q. omega arith) k in
    let (h2, f2, k2) =
      free-Owns h.live made.struct _ (λ q. one_if (made.cond == q)) h1 (λ q. refl) k1 in
    (h2, rw (f1, ◌>>=◌) f2, λ q. ground (arith, k2.blocks q))

-- The five blocks of the pool itself that stay.
abbrev pub pool_rest : PoolBlocks → List ℕ
pool_rest p = p.array ∷ (p.queue_mutex ∷ (p.queue_cond ∷ (p.mutex ∷ (p.cond ∷ []))))

pool_destroy_in-Owns :
    (live : ℕ → Bool) (p : PoolBlocks) (js : List JobBlocks) (m : ℕ → ℕ) (h : Heap)
    → Owns live
        (λ q.
          times q (worker_structs p.workers)
          + (times q (job_structs js) + (one_if (p.queue == q) + (one_if (p.struct == q) + m q))))
        h
    → (h' : Heap) × (pool_destroy_in p js h ≡ some h') × Owns live m h'
unfolding pool_destroy_in
pool_destroy_in-Owns live p js m h k =
    let (h1, f1, k1) = workers_stop_in-Owns live p.workers _ h k in
    let (h2, f2, k2) = jobs_destroy_in-Owns live js _ h1 k1 in
    let (h3, f3, k3) = free-Owns live p.queue _ _ h2 (λ q. refl) k2 in
    let (h4, f4, k4) = free-Owns live p.struct _ m h3 (λ q. refl) k3 in
    (h4, rw (f1, ◌>>=◌) (rw (f2, ◌>>=◌) (rw (f3, ◌>>=◌) f4)), k4)

malloc_seven :
    (live : ℕ → Bool) (h : Heap)
    → Owns live (λ q. 0) h
    → Owns live
        (λ q.
          one_if (h.fresh + 1 + 1 + 1 + 1 + 1 + 1 == q)
          + (one_if (h.fresh + 1 + 1 + 1 + 1 + 1 == q)
              + (one_if (h.fresh + 1 + 1 + 1 + 1 == q)
                  + (one_if (h.fresh + 1 + 1 + 1 == q)
                      + (one_if (h.fresh + 1 + 1 == q)
                          + (one_if (h.fresh + 1 == q) + (one_if (h.fresh == q) + 0)))))))
        (malloc (malloc (malloc (malloc (malloc (malloc (malloc h)))))))
malloc_seven live h k = malloc-Owns live _ _ (
    malloc-Owns live _ _ (
      malloc-Owns live _ _ (
        malloc-Owns live _ _
          (malloc-Owns live _ _ (malloc-Owns live _ _ (malloc-Owns live _ h k))))))

-- What stays of a pool with its jobs, those that were queued at its end behind the others.
abbrev pub left_over : PoolBlocks → List JobBlocks → List JobBlocks → List ℕ
left_over p taken queued =
    pool_rest p
    ++ (worker_rest p.workers ++ (job_structs taken ++ (job_rest taken ++ job_rest queued)))

left_over-times :
    (q : ℕ) (p : PoolBlocks) (taken queued : List JobBlocks)
    → times q (left_over p taken queued)
      ≡ times q (pool_rest p)
        + times q (worker_rest p.workers)
        + times q (job_structs taken)
        + times q (job_rest taken)
        + times q (job_rest queued)
left_over-times q p taken queued = omega (
  arith,
  times-append q (pool_rest p)
      (worker_rest p.workers ++ (job_structs taken ++ (job_rest taken ++ job_rest queued))),
  times-append q (worker_rest p.workers) (job_structs taken ++ (job_rest taken ++ job_rest queued)),
  times-append q (job_structs taken) (job_rest taken ++ job_rest queued),
  times-append q (job_rest taken) (job_rest queued),
)

left_over-length :
    (p : PoolBlocks) (taken queued : List JobBlocks)
    → length (left_over p taken queued)
      ≡ 5
        + length (worker_rest p.workers)
        + length (job_structs taken)
        + length (job_rest taken)
        + length (job_rest queued)
left_over-length p taken queued = omega (
  arith,
  length-append (worker_rest p.workers) (job_structs taken ++ (job_rest taken ++ job_rest queued)),
  length-append (job_structs taken) (job_rest taken ++ job_rest queued),
  length-append (job_rest taken) (job_rest queued),
)

-- A new pool with `size` workers.
abbrev HoldsPool : (ℕ → Bool) → ℕ → Option PoolBlocks × Heap → Type 0
HoldsPool live size (none, h) = Unit
HoldsPool live size (some p, h) =
    Owns live
      (λ q.
        times q (worker_structs p.workers)
        + times q (worker_rest p.workers)
        + times q (pool_rest p)
        + one_if (p.queue == q)
        + one_if (p.struct == q))
      h
    × (length (worker_rest p.workers) ≡ size + size)

pool_new_in-HoldsPool :
    (size : ℕ) (h : Heap) → IsClean h → HoldsPool h.live size (pool_new_in size h)
unfolding pool_new_in
pool_new_in-HoldsPool zero h clean = tt
pool_new_in-HoldsPool (suc n) h clean =
    let (made, many) =
      workers_new_in-Owns h.live (suc n) _ _ (malloc_seven h.live h (IsClean-Owns h clean)) in
    (Owns-same h.live _ _ _ (λ q. omega arith) made, many)

-- In memory with no block at an unused address: a pool that is made, given jobs that are taken and
-- jobs that stay queued, and destroyed, frees only blocks that are there; it leaves, besides the
-- blocks that were there before, five blocks, two for each worker, four for each job that was taken
-- and three for each that was queued, and no others.
pub pool_new-destroy :
    (size taken queued : ℕ) (h : Heap) {pool : PoolBlocks} {h1 : Heap}
    → IsClean h
    → pool_new_in size h ≡ (some pool, h1)
    → let first = jobs_new_in taken h1 in
      let others = jobs_new_in queued first.1 in
      let rest = left_over pool first.0 others.0 in
      (h2 : Heap) × (pool_destroy_in pool others.0 others.1 ≡ some h2)
      × ((q : ℕ) → one_if (h2.live q) ≡ one_if (h.live q) + times q rest)
      × (length rest
          ≡ 5 + (size + size) + (taken + taken + taken + taken) + (queued + queued + queued))
pool_new-destroy size taken queued h {pool} {h1} clean e =
    let (made, many) = subst (HoldsPool h.live size) e (pool_new_in-HoldsPool size h clean) in
    let first = jobs_new_in taken h1 in
    let others = jobs_new_in queued first.1 in
    let (k1, rest1, structs1) = jobs_new_in-Owns h.live taken _ h1 made in
    let (k2, rest2, structs2) = jobs_new_in-Owns h.live queued _ first.1 k1 in
    let (h2, done, k3) =
      pool_destroy_in-Owns h.live pool others.0 (λ q. times q (left_over pool first.0 others.0))
        others.1
        (Owns-same h.live _ _ others.1 (λ q. omega (arith, left_over-times q pool first.0 others.0))
          k2) in
    (
      h2,
      done,
      k3.blocks,
      omega (arith, left_over-length pool first.0 others.0, many, rest1, structs1, rest2),
    )
