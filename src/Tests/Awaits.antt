-- ===== src/Tests/Awaits.antt =====
-- Instances for the callers that wait for a result.
use httpserv.Prelude.{◌+◌, ◌-◌, ◌≡◌, refl, [], ◌∷◌, All, some}
use httpserv.Jobs.{JobResult, job_result_new, Task}
use httpserv.Jobs.Exec.{Functions, result_set, keeps_waiting}
use httpserv.Jobs.Await.{
  running, stored, over, outside, asleep, woken, leaving, returned, Wait, sleeps, leaves, returns,
  sleepers, wakes_one, told, Step, store, tell, call, Steps, here, next, Reach, start, step,
  wait_new,
}
use httpserv.Jobs.Await.Results.{final, IsRight, Reach-wait_new-IsRight}
use httpserv.Jobs.Await.Sleepers.{told_of, over-sleepers}
use httpserv.Jobs.Await.Returns.{sole_caller_returns}

abbrev twice : Functions
twice f a = some (a + a)

abbrev task : Task
task = record { function = some 1; arg = 5 }

abbrev result : JobResult
result = result_set job_result_new (some 10)

abbrev both_asleep : Wait
both_asleep = record { jres = result; stage = stored; callers = asleep ∷ (asleep ∷ []) }

abbrev one_woken : Wait
one_woken = record { jres = told result; stage = over; callers = woken ∷ (asleep ∷ []) }

abbrev one_left : Wait
one_left = record { jres = told result; stage = over; callers = leaving ∷ (asleep ∷ []) }

abbrev one_returned : Wait
one_returned = record {
  jres = told result;
  stage = over;
  callers = returned (some 10) ∷ (asleep ∷ []);
}

both_asleep-Reach : Reach twice task (wait_new 2) both_asleep
unfolding keeps_waiting
both_asleep-Reach =
    step
      (step (step start (call [] (outside ∷ []) (sleeps refl)))
        (call (asleep ∷ []) [] (sleeps refl)))
      (store 1 refl)

tells : Step twice task both_asleep one_woken
tells = tell (wakes_one [] (asleep ∷ []))

lets_go : Step twice task one_woken one_left
unfolding keeps_waiting
lets_go = call [] (asleep ∷ []) (leaves refl)

gives : Step twice task one_left one_returned
gives = call [] (asleep ∷ []) returns

Reach-wait_new-IsRight_example :
    All (IsRight (final twice task) one_returned.jres) one_returned.callers
Reach-wait_new-IsRight_example =
    Reach-wait_new-IsRight twice task 2 {s = one_returned}
      (step (step (step both_asleep-Reach tells) lets_go) gives)

over-sleepers_example :
    sleepers one_returned.callers ≡ sleepers both_asleep.callers - told_of task.function
over-sleepers_example =
    over-sleepers twice task 2 {s = both_asleep} {t = one_woken} {u = one_returned}
      both_asleep-Reach (λ e. let e' : stored ≡ over = e in cc) tells refl
      (next (next here lets_go) gives)

alone-Reach :
    Reach twice task
      (wait_new 1)
      (record { jres = job_result_new; stage = running; callers = asleep ∷ [] })
unfolding keeps_waiting
alone-Reach = step start (call [] [] (sleeps refl))

sole_caller_returns_example :
    (t : Wait) × Steps twice task
      (record { jres = job_result_new; stage = running; callers = asleep ∷ [] })
      t
    × (t.callers ≡ returned (twice 1 5) ∷ [])
sole_caller_returns_example = sole_caller_returns twice task 1 refl alone-Reach
