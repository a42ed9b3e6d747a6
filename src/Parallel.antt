-- ===== src/Parallel.antt =====
-- `parallelize` of include/marl/parallelize.hpp. The functions are named by numbers; the steps of the
-- caller and of the tasks interleave. A `WaitGroup` is its counter.
pub mod Laws
use mini_marl.Base.{
  ℕ, zero, suc, ◌+◌, ◌-◌, ◌≡◌, Bool, true, false, List, [], ◌∷◌, Option, none, some, ltb, ◌==◌,
  if◌then◌else◌, length, pick, Run, ok, abort, ◌>>=◌, ◌>>◌, marl_assert,
}

-- A scheduled task: it is to call its function, or `wg.done()`.
pub data Scheduled : Type 0 where
  pending : ℕ → Scheduled
  called : Scheduled

-- Where the caller stands: at `schedule_f(fn)` of the functions that are left, at `wg.wait()`, or behind.
pub data Caller : Type 0 where
  scheduling : List ℕ → Caller
  waiting : Caller
  returned : Caller

-- `ran` are the calls of functions, the newest first.
pub record Exec : Type 0 where
  pub caller : Caller
  pub counter : ℕ
  pub tasks : List Scheduled
  pub ran : List ℕ

-- `WaitGroup wg(sizeof...(FN))`
unfoldable pub begin_call : List ℕ → Exec
begin_call fn = record { caller = scheduling fn; counter = length fn; tasks = []; ran = [] }

-- A step of the caller. `bound` says whether a scheduler is bound, which `schedule` asserts.
unfoldable pub call_step : Bool → ℕ → Caller → Exec → Run Exec
call_step bound f0 (scheduling (f ∷ fn)) e = do
  marl_assert bound
  ok (record e { caller = scheduling fn; tasks = pending f ∷ e.tasks })
call_step bound f0 (scheduling []) e = ok (record e { caller = waiting; ran = f0 ∷ e.ran })
call_step bound f0 waiting e = ok (if e.counter == 0 then record e { caller = returned } else e)
call_step bound f0 returned e = ok e

-- A step of the task that has been taken out of `tasks`.
unfoldable pub task_step : Option (Scheduled × List Scheduled) → Exec → Run Exec
task_step none e = ok e
task_step (some (pending f, rest)) e = ok (record e { tasks = called ∷ rest; ran = f ∷ e.ran })
task_step (some (called, rest)) e = do
  marl_assert (ltb 0 e.counter)
  ok (record e { tasks = rest; counter = e.counter - 1 })

-- The caller's step, or that of a task; without such a task nothing happens.
unfoldable pub step : Bool → ℕ → Option ℕ → Exec → Run Exec
unfolding call_step task_step
step bound f0 none e = call_step bound f0 e.caller e
step bound f0 (some i) e = task_step (pick i e.tasks) e

pub data Reached (bound : Bool) (f0 : ℕ) (fn : List ℕ) : Exec → Type 0 where
  started : Reached bound f0 fn (begin_call fn)
  stepped :
      {e e' : Exec} (who : Option ℕ)
      → Reached bound f0 fn e
      → step bound f0 who e ≡ ok e'
      → Reached bound f0 fn e'
