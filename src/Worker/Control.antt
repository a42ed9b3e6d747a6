-- ===== src/Worker/Control.antt =====
-- The code that the thread of a worker runs under `work_.mutex`, cut where it releases the mutex
-- and where it switches to another fiber.
use mini_marl.Base.{
  ℕ, ◌+◌, ◌-◌, ◌%◌, Bool, true, false, not, ◌&&◌, ◌||◌, List, [], ◌∷◌, Option, none, some, ltb, leb,
  ◌==◌, if◌then◌else◌, length, count, erase, get_elem?, Run, ok, ◌>>=◌, ◌>>◌, marl_assert,
}
use mini_marl.Task
use mini_marl.Task.{Task}
use mini_marl.Waiting
use mini_marl.Worker.State.{
  Mode, multi_threaded, single_threaded, State, state_eq, Job, shut_down, user, Code, task, Resume,
  active, in_suspend, in_idle, Caller, from_run, from_loop, from_suspend, in_code, spinning,
  sleeping, starting, until_shutdown, until_idle, awake, returning, finished, Worker, main_fiber,
  update, set_fiber_state, change_fiber_state,
}
use mini_marl.Worker.Queues.{enqueue_fiber_timeouts}

-- The fiber that is switched to goes on: behind the switch of `suspend` it counts itself as no
-- longer blocked and running, behind that of `runUntilIdle` it leaves the state Idle, and a new
-- fiber enters `run`.
unfoldable pub go_on : Resume → Worker → Run Worker
unfolding set_fiber_state change_fiber_state
go_on active w = ok (record w { pc = starting })
go_on (in_suspend c) w =
    let w1 : Worker = record w { num_blocked_fibers = w.num_blocked_fibers - 1 } in
    let w2 : Worker = set_fiber_state w.current_fiber State.running w1 in
    ok (record w2 { resume = update w.resume w.current_fiber active; pc = in_code c })
go_on in_idle w = change_fiber_state w.current_fiber State.idle State.running w >>= λ v.
    ok (record v { resume = update w.resume w.current_fiber active; pc = until_idle })

-- `switchToFiber`, where the current fiber leaves behind the point at which it will go on.
unfoldable pub switch_to_fiber : Resume → ℕ → Worker → Run Worker
unfolding go_on
switch_to_fiber left to w = do
  marl_assert ((to == main_fiber) || (count to w.idle_fibers == 0))
  let resume' = update w.resume w.current_fiber left
  go_on (resume' to) (record w { current_fiber = to; resume = resume' })

-- `createWorkerFiber`: the new fiber's state is Running.
unfoldable pub create_worker_fiber : Worker → ℕ × Worker
create_worker_fiber w = (w.worker_fibers + 1, record w { worker_fibers = w.worker_fibers + 1 })

-- `containers::take(idle_fibers_)`: the set's first fiber in its own order, which is any of them.
unfoldable pub pick_idle : ℕ → List ℕ → Option ℕ
pick_idle choice fs = get_elem? fs (choice % length fs)

unfoldable pub resume_idle : Code → Option ℕ → Worker → Run Worker
unfolding switch_to_fiber create_worker_fiber
resume_idle c none w = let (to, w1) = create_worker_fiber w in switch_to_fiber (in_suspend c) to w1
resume_idle c (some to) w = do
  marl_assert (state_eq (w.state to) State.idle)
  switch_to_fiber (in_suspend c) to (record w { idle_fibers = erase to w.idle_fibers })

unfoldable pub resume_queued : Code → ℕ → List ℕ → Worker → Run Worker
unfolding resume_idle pick_idle
resume_queued c choice [] w = resume_idle c (pick_idle choice w.idle_fibers) w
resume_queued c choice (to ∷ rest) w = do
  let w1 : Worker = record w { num = w.num - 1; fibers = rest }
  marl_assert (state_eq (w1.state to) State.queued)
  switch_to_fiber (in_suspend c) to w1

-- `suspend` behind `waitForWork`.
unfoldable pub suspend_switch : Code → ℕ → Worker → Run Worker
unfolding resume_queued
suspend_switch c choice w =
    resume_queued c choice w.fibers (record w { num_blocked_fibers = w.num_blocked_fibers + 1 })

unfoldable pub in_sync : Worker → Bool
in_sync w = w.num == (length w.fibers + length w.tasks)

-- Behind `waitForWork`, or the wait of `run`. `runUntilIdle` begins with two assertions.
unfoldable pub proceed : Caller → Worker → Run Worker
unfolding in_sync
proceed from_run w = do
  marl_assert (state_eq (w.state w.current_fiber) State.running)
  ok (record w { pc = until_shutdown })
proceed from_loop w = do
  marl_assert (state_eq (w.state w.current_fiber) State.running)
  marl_assert (in_sync w)
  ok (record w { pc = until_idle })
proceed (from_suspend c) w = ok (record w { pc = awake c })

-- The predicates of the two calls of `Work::wait`.
unfoldable pub may_proceed : Caller → Worker → Bool
may_proceed from_run w = ltb 0 w.num || (Waiting.any_waiting w.waiting || w.shutdown)
may_proceed from_loop w = ltb 0 w.num || (w.shutdown && (w.num_blocked_fibers == 0))
may_proceed (from_suspend _) w = ltb 0 w.num || (w.shutdown && (w.num_blocked_fibers == 0))

-- Behind the wait on the condition: `notify_added = false`, and in `waitForWork` the fibers whose
-- time has passed are queued.
unfoldable pub leave_wait : Caller → ℕ → Worker → Run Worker
unfolding proceed
leave_wait from_run now w = proceed from_run (record w { notify_added = false })
leave_wait from_loop now w =
    let w1 : Worker = record w { notify_added = false } in
    (if Waiting.any_waiting w.waiting then enqueue_fiber_timeouts now w1 else ok w1)
    >>= proceed from_loop
leave_wait (from_suspend c) now w =
    let w1 : Worker = record w { notify_added = false } in
    (if Waiting.any_waiting w.waiting then enqueue_fiber_timeouts now w1 else ok w1)
    >>= proceed (from_suspend c)

-- `Work::wait`, up to the point where the thread blocks.
unfoldable pub work_wait : Caller → ℕ → Worker → Run Worker
unfolding may_proceed leave_wait
work_wait c now w =
    if may_proceed c w
    then leave_wait c now w
    else if Waiting.any_waiting w.waiting
    then (Waiting.next w.waiting >>= λ t.
        ok (record w { notify_added = true; pc = sleeping c (some t) }))
    else ok (record w { notify_added = true; pc = sleeping c none })

unfoldable pub spin_or_wait : Mode → Caller → ℕ → Worker → Run Worker
unfolding work_wait
spin_or_wait multi_threaded c now w = ok (record w { pc = spinning c })
spin_or_wait single_threaded c now w = work_wait c now w

-- `waitForWork`, up to the point where it releases the mutex or blocks.
unfoldable pub wait_for_work : Caller → ℕ → Worker → Run Worker
unfolding in_sync proceed spin_or_wait
wait_for_work c now w =
    marl_assert (in_sync w) >> (if ltb 0 w.num then proceed c w else spin_or_wait w.mode c now w)

-- The thread of a sleeping worker wakes with the mutex: `wait` and `wait_until` go back to sleep if
-- the predicate is false and the time has not come.
unfoldable pub wake : Caller → Option ℕ → ℕ → ℕ → Worker → Run Worker
unfolding may_proceed leave_wait
wake c none clock now w = if may_proceed c w then leave_wait c now w else ok w
wake c (some t) clock now w = if may_proceed c w || leb t clock then leave_wait c now w else ok w

-- `suspend` up to `waitForWork`, with the lock taken by `wait`.
unfoldable pub suspend : Code → Option ℕ → ℕ → Worker → Run Worker
unfolding change_fiber_state wait_for_work
suspend c none now w =
    change_fiber_state w.current_fiber State.running State.yielded w
    >>= wait_for_work (from_suspend c) now
suspend c (some t) now w = do
  w1 ← change_fiber_state w.current_fiber State.running State.waiting w
  waiting' ← Waiting.add t w.current_fiber w.waiting
  wait_for_work (from_suspend c) now (record w1 { waiting = waiting' })

-- The lambda of another worker's `stop` sets the flag of that worker.
unfoldable pub run_job : Job → Worker → Worker
run_job (shut_down id) w = record w { shutdown = w.shutdown || id == w.id_; pc = in_code task }
run_job (user _) w = record w { pc = in_code task }

unfoldable pub run_tasks : List (Task Job) → Worker → Run Worker
unfolding run_job
run_tasks [] w = ok (record w { pc = until_shutdown })
run_tasks (t ∷ ts) w = do
  job ← Task.call t
  ok (run_job job (record w { num = w.num - 1; tasks = ts }))

unfoldable pub run_fibers : List ℕ → Worker → Run Worker
unfolding run_tasks change_fiber_state switch_to_fiber
run_fibers [] w = run_tasks w.tasks w
run_fibers (f ∷ rest) w = do
  let w1 : Worker = record w { num = w.num - 1; fibers = rest }
  marl_assert (count f w.idle_fibers == 0)
  marl_assert (not (f == w.current_fiber))
  marl_assert (state_eq (w1.state f) State.queued)
  w2 ← change_fiber_state w.current_fiber State.running State.idle w1
  marl_assert (count w.current_fiber w.idle_fibers == 0)
  switch_to_fiber in_idle f (record w2 { idle_fibers = w.current_fiber ∷ w.idle_fibers })

-- One round of `runUntilIdle`: switch to a queued fiber, or start a task, or leave.
unfoldable pub run_until_idle : Worker → Run Worker
unfolding run_fibers
run_until_idle w = run_fibers w.fibers w

-- The loop test of `runUntilShutdown`, and what follows.
unfoldable pub run_until_shutdown : ℕ → Worker → Run Worker
unfolding wait_for_work
run_until_shutdown now w =
    if not w.shutdown || (ltb 0 w.num || ltb 0 w.num_blocked_fibers)
    then wait_for_work from_loop now w
    else ok (record w { pc = returning })

-- The end of `run`: the switch to the main fiber, where the fiber that leaves never goes on. On the
-- main fiber nothing is switched, and the thread or `stop` returns.
unfoldable pub return_to_main : Worker → Run Worker
unfolding switch_to_fiber
return_to_main w =
    if w.current_fiber == main_fiber
    then ok (record w { pc = finished })
    else switch_to_fiber active main_fiber w

-- The head of `run`.
unfoldable pub run : ℕ → Worker → Run Worker
unfolding work_wait proceed
run now w = elim w.mode [
  | multi_threaded ↦ work_wait from_run now w
  | single_threaded ↦ proceed from_run w
]
