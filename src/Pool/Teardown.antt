-- ===== src/Pool/Teardown.antt =====
-- `Scheduler::~Scheduler` of src/scheduler.cpp, while the workers, their callers and the bound threads
-- go on.
use mini_marl.Base.{
  ℕ, zero, suc, ◌+◌, ◌-◌, ◌||◌, List, [], ◌∷◌, ◌==◌, if◌then◌else◌, Run, ok, ◌>>=◌,
}
use mini_marl.Worker.State.{Pc, Worker}
use mini_marl.Worker.Step.{is_unlocked}
use mini_marl.Pool.{Pool, worker, start_pool, is_finished, Event, stop, step}
pub mod Joined

-- Where the destructor stands. It stops the workers from the last one to the first, and then destroys
-- them in the same order.
pub data Phase : Type 0 where
  unbinding : Phase  -- it waits until no thread is bound
  stopping : ℕ → Phase  -- so many workers are still to be stopped
  joining : ℕ → Phase  -- it waits for the thread of this worker
  destroying : ℕ → Phase  -- so many workers are still to be destroyed
  destroyed : Phase

pub record Teardown : Type 0 where
  pub pool : Pool
  pub by_tid_size : ℕ  -- the size of `single_threaded_workers_.by_tid`
  pub phase : Phase

abbrev pub start_teardown : ℕ → ℕ → Teardown
start_teardown n bound_threads = record {
  pool = start_pool n;
  by_tid_size = bound_threads;
  phase = unbinding;
}

-- `stop` of worker `i` takes the mutex, unless somebody holds it. What it queues after the thread has
-- ended is not followed.
unfoldable pub stop_next : ℕ → Teardown → Run Teardown
unfolding step
stop_next i d =
    let pc = (worker i d.pool).pc in
    let stopped = step (stop i) d.pool >>= λ p. ok (record d { pool = p; phase = joining i }) in
    if is_unlocked pc || is_finished pc then stopped else ok d

unfoldable pub go_on : Phase → Teardown → Run Teardown
unfolding stop_next
go_on unbinding d =
    ok (
      if d.by_tid_size == 0 then record d { phase = stopping d.pool.scheduler.worker_count } else d)
go_on (stopping zero) d = ok (record d { phase = destroying d.pool.scheduler.worker_count })
go_on (stopping (suc i)) d = stop_next i d
go_on (joining i) d =
    ok (if is_finished (worker i d.pool).pc then record d { phase = stopping i } else d)
go_on (destroying zero) d = ok (record d { phase = destroyed })
go_on (destroying (suc i)) d = ok (record d { phase = destroying i })
go_on destroyed d = ok d

pub data Move : Type 0 where
  proceeds : Move  -- the destructor goes on
  binds unbinds : Move  -- a thread binds, or unbinds
  goes : Event → Move  -- anything else in the pool

-- Calls are not excluded once the workers are destroyed, where those of the code would use freed objects.
unfoldable pub move : Move → Teardown → Run Teardown
unfolding go_on step
move proceeds d = go_on d.phase d
move binds d = ok (record d { by_tid_size = d.by_tid_size + 1 })
move unbinds d = ok (record d { by_tid_size = d.by_tid_size - 1 })
move (goes e) d = step e d.pool >>= λ p. ok (record d { pool = p })

unfoldable pub run_moves : List Move → Teardown → Run Teardown
unfolding move
run_moves [] d = ok d
run_moves (m ∷ ms) d = move m d >>= run_moves ms
