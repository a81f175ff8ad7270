-- ===== src/Jobs/Pool/Finish.antt =====
-- Every worker of a pool can finish the job that it has.
use httpserv.Prelude.{
  ℕ, ◌+◌, ◌≡◌, refl, sym, ◌∙◌, List, [], ◌∷◌, ◌++◌, append_assoc, append-nil, length-append, arith,
  length, All, All-append,
}
use mathlib.Core.Path.{subst}
use httpserv.Jobs.Exec.{Functions}
use httpserv.Jobs.Pool.{Phase, looping, waiting, woken, executing, Pool}
use httpserv.Jobs.Pool.Runs.{stays, Runs-append, IsGood, Stepped, finish_one, IsIdle}

-- A state with idle workers only, as many as `n`, at which no job was taken from the queue.
pub record Finished (run : Functions) (s : Pool) (n : ℕ) : Type 0 where
  pub workers : List Phase
  pub idle : All IsIdle workers
  pub number : length workers ≡ n
  pub stepped : Stepped run s workers s.memory.size

Stepped-Finished :
    (run : Functions) {s : Pool} {ws : List Phase} {n : ℕ} (t : Stepped run s ws s.memory.size)
    → Finished run t.state n
    → Finished run s n
Stepped-Finished run t f = record {
  workers = f.workers;
  idle = f.idle;
  number = f.number;
  stepped = record {
    state = f.stepped.state;
    steps = Runs-append run t.steps f.stepped.steps;
    good = f.stepped.good;
    workers = f.stepped.workers;
    size = f.stepped.size ∙ t.size;
    free = f.stepped.free ∙ t.free;
  };
}

all_idle :
    (run : Functions) (s : Pool) (ws : List Phase)
    → s.workers ≡ ws
    → All IsIdle ws
    → IsGood s
    → Finished run s (length ws)
all_idle run s ws e i g = record {
  workers = ws;
  idle = i;
  number = refl;
  stepped = record { state = s; steps = stays; good = g; workers = e; size = refl; free = refl };
}

-- One more worker is known to have no job.
module _ (run : Functions) (s : Pool) (before after : List Phase) (w : Phase) where
  one_behind : s.workers ≡ before ++ (w ∷ after) → s.workers ≡ (before ++ w ∷ []) ++ after
  one_behind e = e ∙ sym (append_assoc before (w ∷ []) after)

  one-IsIdle : All IsIdle before → IsIdle w → All IsIdle (before ++ w ∷ [])
  one-IsIdle i j = All-append IsIdle before (w ∷ []) i (j, tt)

  one_number :
      Finished run s (length (before ++ w ∷ []) + length after)
      → Finished run s (length before + length (w ∷ after))
  one_number = subst (Finished run s) (omega (arith, length-append before (w ∷ [])))

-- The workers behind `before` finish what they have, one after the other.
pub finish_all :
    (run : Functions) (s : Pool) (before after : List Phase)
    → s.workers ≡ before ++ after
    → All IsIdle before
    → IsGood s
    → Finished run s (length before + length after)
finish_all run s before [] e i g =
    subst (Finished run s) (omega arith) (all_idle run s before (e ∙ append-nil before) i g)
finish_all run s before (executing x ∷ after) e i g =
    let f = finish_one run s before after x e g in
    Stepped-Finished run f (
      one_number run f.state before after looping (
        finish_all run f.state (before ++ looping ∷ []) after
          (one_behind run f.state before after looping f.workers)
          (one-IsIdle run f.state before after looping i tt) f.good))
finish_all run s before (looping ∷ after) e i g = one_number run s before after looping (
    finish_all run s (before ++ looping ∷ []) after (one_behind run s before after looping e)
      (one-IsIdle run s before after looping i tt) g)
finish_all run s before (waiting ∷ after) e i g = one_number run s before after waiting (
    finish_all run s (before ++ waiting ∷ []) after (one_behind run s before after waiting e)
      (one-IsIdle run s before after waiting i tt) g)
finish_all run s before (woken ∷ after) e i g = one_number run s before after woken (
    finish_all run s (before ++ woken ∷ []) after (one_behind run s before after woken e)
      (one-IsIdle run s before after woken i tt) g)
