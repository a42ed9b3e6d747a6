-- ===== src/Worker/Step.antt =====
-- The steps of a worker: those of its own thread, and the calls of other threads while the mutex is
-- free. Any interleaving is a list of actions.
use mini_marl.Base.{ℕ, Bool, true, false, List, [], ◌∷◌, Option, Run, ok, ◌>>=◌}
use mini_marl.Task.{Task}
use mini_marl.Worker.State.{
  Code, task, bound, Pc, Job, Worker, in_code, spinning, sleeping, before_run, starting,
  until_shutdown, until_idle, awake, returning,
}
use mini_marl.Worker.Queues.{enqueue_fiber, enqueue_task, accept_stolen, steal}
use mini_marl.Worker.Control.{
  work_wait, wake, suspend, suspend_switch, run_until_idle, run_until_shutdown, return_to_main, run,
}

-- Numbers are readings of the clock, and the order in which the set of idle fibers is read.
pub data Action : Type 0 where
  add_task : Task Job → Action  -- `enqueue(Task &&)`, by any thread
  notify : ℕ → Action  -- `Fiber::notify`, by any thread
  stolen_from : Bool → Action  -- `steal`, by the thread of another worker
  suspends : Option ℕ → ℕ → Action  -- the code on the current fiber calls `wait`
  returns : ℕ → Action  -- the task returns, or the bound thread calls `stop`
  accepts : Task Job → Action  -- `spinForWork` takes a task that `stealWork` brought
  spun : ℕ → Action  -- `spinForWork` returns
  wakes : ℕ → ℕ → Action  -- the condition variable wakes the thread
  advances : ℕ → ℕ → Action  -- the thread goes on under the mutex
  told : Action  -- another thread runs the lambda of this worker's `stop`

abbrev pub is_unlocked : Pc → Bool
is_unlocked (in_code _) = true
is_unlocked before_run = true
is_unlocked (spinning _) = true
is_unlocked (sleeping _ _) = true
is_unlocked _ = false

-- The thread under the mutex, which it takes at first when it stands before `run`.
unfoldable pub advance : Pc → ℕ → ℕ → Worker → Run Worker
advance before_run now choice w = run now w
advance starting now choice w = run now w
advance until_shutdown now choice w = run_until_shutdown now w
advance until_idle now choice w = run_until_idle w
advance (awake c) now choice w = suspend_switch c choice w
advance returning now choice w = return_to_main w
advance _ now choice w = ok w

-- The code of the current fiber gives the thread back to the scheduler.
unfoldable pub code_returns : Code → Worker → Worker
code_returns task w = record w { pc = until_idle }
code_returns bound w = record w { shutdown = true; pc = until_shutdown }

unfoldable pub accepted : Pc → Task Job → Worker → Worker
accepted (spinning c) t w = accept_stolen t w
accepted _ t w = w

unfoldable pub spun_out : Pc → ℕ → Worker → Run Worker
spun_out (spinning c) now w = work_wait c now w
spun_out _ now w = ok w

unfoldable pub woken : Pc → ℕ → ℕ → Worker → Run Worker
woken (sleeping c limit) clock now w = wake c limit clock now w
woken _ clock now w = ok w

unfoldable pub suspended : Pc → Option ℕ → ℕ → Worker → Run Worker
suspended (in_code c) timeout now w = suspend c timeout now w
suspended _ timeout now w = ok w

unfoldable pub returned : Pc → Worker → Worker
unfolding code_returns
returned (in_code c) w = code_returns c w
returned _ w = w

-- A call of another thread waits until the mutex is free. A call after the thread has ended is not
-- followed here, but in `Pool`.
unfoldable pub called : Bool → Run Worker → Worker → Run Worker
called true r w = r
called false r w = ok w

-- An action that cannot take place where the worker stands changes nothing.
unfoldable pub step : Action → Worker → Run Worker
step (add_task t) w = called (is_unlocked w.pc) (ok (enqueue_task t w).0) w
step (notify f) w = called (is_unlocked w.pc) (enqueue_fiber f w >>= λ r. ok r.0) w
step (stolen_from locked) w = called (is_unlocked w.pc) (ok (steal locked w).0) w
step (suspends timeout now) w = suspended w.pc timeout now w
step (returns now) w = ok (returned w.pc w)
step (accepts t) w = ok (accepted w.pc t w)
step (spun now) w = spun_out w.pc now w
step (wakes clock now) w = woken w.pc clock now w
step (advances now choice) w = advance w.pc now choice w
step told w = ok (record w { shutdown = true })

unfoldable pub run_steps : List Action → Worker → Run Worker
unfolding step
run_steps [] w = ok w
run_steps (a ∷ as_) w = step a w >>= run_steps as_
