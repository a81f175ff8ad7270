-- ===== src/Tests/Blocks.antt =====
-- Instances for the blocks of requests, responses, results and pools.
use httpserv.Prelude.{
  ℕ, ◌+◌, ◌≡◌, ◌==◌, refl, true, false, List, [], ◌∷◌, some, length, times, one_if, if◌then◌else◌,
}
use httpserv.Memory.{Heap}
use httpserv.Http.Response.Blocks.{Change, with_header, with_body}
use httpserv.Http.Request.Blocks as OfRequest
use httpserv.Http.Request.Blocks.Frees.{request_destroy-changes_in}
use httpserv.Jobs.Blocks.{PoolBlocks, JobBlocks, pool_new_in, jobs_new_in, pool_destroy_in}
use httpserv.Jobs.Blocks.Leaks.{left_over, pool_new-destroy}

abbrev empty_heap : Heap
empty_heap = record { live = λ q. false; fresh = 0 }

abbrev three_changes : List Change
three_changes = with_header ∷ (with_body ∷ (with_header ∷ []))

request_destroy-changes_in_example :
    (r : OfRequest.RequestBlocks) × (h1 h2 : Heap) × (OfRequest.changes_in three_changes
        (OfRequest.new_in empty_heap).0
        (OfRequest.new_in empty_heap).1
      ≡ some (r, h1))
    × (OfRequest.request_destroy r h1 ≡ some h2)
    × ((q : ℕ) → h2.live q ≡ (if r.struct == q then true else false))
request_destroy-changes_in_example =
    request_destroy-changes_in empty_heap three_changes (λ q l. refl)

-- A pool of one worker, the memory behind its creation, a job that is executed and one that is queued.
abbrev one_worker : PoolBlocks
one_worker = record {
  struct = 0;
  array = 1;
  queue = 2;
  queue_mutex = 3;
  queue_cond = 4;
  mutex = 5;
  cond = 6;
  workers = record { struct = 7; thread = 8; data_block = 9 } ∷ [];
}

abbrev with_pool : Heap
with_pool = (pool_new_in 1 empty_heap).1

abbrev executed_jobs : List JobBlocks × Heap
executed_jobs = jobs_new_in 1 with_pool

abbrev queued_jobs : List JobBlocks × Heap
queued_jobs = jobs_new_in 1 executed_jobs.1

pool_new-destroy_example :
    (h2 : Heap) × (pool_destroy_in one_worker queued_jobs.0 queued_jobs.1 ≡ some h2)
    × ((q : ℕ)
        → one_if (h2.live q)
          ≡ one_if false + times q (left_over one_worker executed_jobs.0 queued_jobs.0))
    × (length (left_over one_worker executed_jobs.0 queued_jobs.0) ≡ 14)
unfolding pool_new_in
pool_new-destroy_example =
    pool_new-destroy 1 1 1 empty_heap {pool = one_worker} {h1 = with_pool} (λ q l. refl) refl
