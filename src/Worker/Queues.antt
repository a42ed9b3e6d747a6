-- ===== src/Worker/Queues.antt =====
-- The operations on the queues of a worker that other threads call too, each under `work_.mutex`.
use mini_marl.Base.{
  ℕ, zero, suc, ◌+◌, ◌-◌, Bool, false, not, List, [], ◌∷◌, ◌++◌, Option, none, some, ◌==◌,
  if◌then◌else◌, length, Run, ok, out_of_fuel, ◌>>=◌, ◌>>◌, marl_assert,
}
use mini_marl.Task.{Task, same_thread, is}
use mini_marl.Waiting
use mini_marl.Worker.State.{State, Job, Worker, set_fiber_state, change_fiber_state}

-- `enqueue(Fiber *)` behind the switch on the fiber's state.
unfoldable pub push_fiber : ℕ → Worker → Run (Worker × Bool)
unfolding Waiting.contains set_fiber_state
push_fiber f w = do
  marl_assert (not (Waiting.contains f w.waiting))
  ok (
    set_fiber_state f State.queued (record w { fibers = w.fibers ++ f ∷ []; num = w.num + 1 }),
    w.notify_added,
  )

unfoldable pub enqueue_in : State → ℕ → Worker → Run (Worker × Bool)
unfolding push_fiber Waiting.erase
enqueue_in State.running f w = ok (w, false)
enqueue_in State.queued f w = ok (w, false)
enqueue_in State.waiting f w = do
  rest ← Waiting.erase f w.waiting
  push_fiber f (record w { waiting = rest })
enqueue_in State.idle f w = push_fiber f w
enqueue_in State.yielded f w = push_fiber f w

-- `enqueue(Fiber *)`: the new state, and whether `work_.added.notify_one()` is called.
unfoldable pub enqueue_fiber : ℕ → Worker → Run (Worker × Bool)
unfolding enqueue_in
enqueue_fiber f w = enqueue_in (w.state f) f w

-- `enqueueAndUnlock(Task &&)`, and `enqueue(Task &&)` once it has the lock.
unfoldable pub enqueue_task : Task Job → Worker → Worker × Bool
enqueue_task t w = (record w { tasks = w.tasks ++ t ∷ []; num = w.num + 1 }, w.notify_added)

-- `spinForWork` with a stolen task: it takes no part in the notification.
unfoldable pub accept_stolen : Task Job → Worker → Worker
accept_stolen t w = record w { tasks = w.tasks ++ t ∷ []; num = w.num + 1 }

unfoldable pub steal_first : List (Task Job) → Worker → Worker × Option (Task Job)
steal_first [] w = (w, none)
steal_first (t ∷ ts) w =
    if is t same_thread then (w, none) else (record w { num = w.num - 1; tasks = ts }, some t)

-- `steal(Task &)`, given whether `try_lock` succeeds.
unfoldable pub steal : Bool → Worker → Worker × Option (Task Job)
unfolding steal_first
steal locked w =
    if w.num == 0 then (w, none) else if not locked then (w, none) else steal_first w.tasks w

-- A round of the loop of `enqueueFiberTimeouts`, given the rest of the loop and what `take` returned.
unfoldable pub queue_taken :
    (Worker → Run Worker) → Option ℕ → Waiting.WaitingFibers → Worker → Run Worker
unfolding change_fiber_state
queue_taken loop none waiting' w = ok (record w { waiting = waiting' })
queue_taken loop (some f) waiting' w = do
  v ← change_fiber_state f State.waiting State.queued (record w { waiting = waiting' })
  loop (record v { fibers = v.fibers ++ f ∷ []; num = v.num + 1 })

-- Each round takes an entry off `timeouts`.
unfoldable pub enqueue_timeouts : ℕ → ℕ → Worker → Run Worker
unfolding queue_taken
enqueue_timeouts zero now w = out_of_fuel
enqueue_timeouts (suc fuel) now w = do
  r ← Waiting.take now w.waiting
  queue_taken (enqueue_timeouts fuel now) r.0 r.1 w

unfoldable pub enqueue_fiber_timeouts : ℕ → Worker → Run Worker
unfolding enqueue_timeouts
enqueue_fiber_timeouts now w = enqueue_timeouts (suc (length w.waiting.timeouts)) now w
