-- ===== src/Tests/WorkerRuns.antt =====
-- Runs of a worker: src/scheduler.cpp.
use mini_marl.Base.{
  ℕ, ◌≡◌, ◌⊎◌, ◌++◌, refl, Bool, true, List, [], ◌∷◌, Option, none, some, arith, Run, ok, abort,
}
use mini_marl.Task.{Task, none_, is, is_valid, call}
use mini_marl.Waiting
use mini_marl.Worker.State.{
  Mode, State, multi_threaded, single_threaded, Job, shut_down, user, Worker, from_suspend, Pc,
  in_code, task, finished, start,
}
use mini_marl.Worker.Queues.{
  enqueue_fiber, enqueue_task, accept_stolen, steal, enqueue_fiber_timeouts,
}
use mini_marl.Worker.Step.{
  Action, add_task, notify, suspends, returns, spun, wakes, advances, step, run_steps, called,
  advance, code_returns, accepted, spun_out, woken, suspended, returned,
}
use mini_marl.Worker.Control.{
  go_on, switch_to_fiber, suspend_switch, proceed, leave_wait, work_wait, wait_for_work, wake,
  suspend, run_until_idle, run_until_shutdown, return_to_main, run,
}
use mini_marl.Worker.Reach.{
  Reached, Books, Reached-Books, Reached-one_running, Reached-notifies, Reached-Inv,
  notify_idle_aborts,
}
use mini_marl.Worker.Timeouts.{TimedOut, enqueue_fiber_timeouts-TimedOut}
use mini_marl.Worker.Inv.{Inv, Ending}
use mini_marl.Worker.Calls.{Succeeds}
use mini_marl.Worker.Safety.{run_steps-start}

abbrev job : ℕ → Task Job
job n = record { function_ = some (user n); flags_ = none_ }

abbrev stop : Task Job
stop = record { function_ = some (shut_down 0); flags_ = none_ }

-- The place where the thread stands at the end of a run, the counter, the current fiber, the queue
-- and the number of fibers blocked.
outcome : Mode → List Action → Option (Pc × ℕ × ℕ × List ℕ × ℕ)
unfolding start run_steps step called advance code_returns accepted spun_out woken suspended
    returned enqueue_fiber enqueue_task accept_stolen steal enqueue_fiber_timeouts go_on
    switch_to_fiber suspend_switch proceed leave_wait work_wait wait_for_work wake suspend
    run_until_idle run_until_shutdown return_to_main run is call Waiting.no_waiting
    Waiting.any_waiting Waiting.contains Waiting.take Waiting.next Waiting.add Waiting.erase
outcome m acts = view (run_steps acts (start m 0))
  where
    view : Run Worker → Option (Pc × ℕ × ℕ × List ℕ × ℕ)
    view (ok w) = some (w.pc, w.num, w.current_fiber, w.fibers, w.num_blocked_fibers)
    view _ = none

-- A task waits with a timeout; the thread spins, sleeps until the time has come, and goes on with
-- the same fiber.
abbrev timed_wait : List Action
timed_wait =
    advances 0 0
    ∷ add_task (job 7)
    ∷ wakes 1 1
    ∷ advances 0 0
    ∷ advances 0 0
    ∷ suspends (some 50) 10
    ∷ spun 11
    ∷ wakes 20 20
    ∷ wakes 50 51
    ∷ advances 52 0
    ∷ []

timed_wait_runs : outcome multi_threaded timed_wait ≡ some (in_code task, 0, 0, [], 0)
unfolding outcome
timed_wait_runs = refl

-- A single threaded worker: the thread binds, adds a task and waits; a new fiber runs the task,
-- which notifies the main fiber; the thread stops the worker.
abbrev before_last : List Action
before_last =
    add_task (job 1)
    ∷ suspends none 5
    ∷ advances 5 0
    ∷ advances 5 0
    ∷ advances 5 0
    ∷ advances 5 0
    ∷ notify 0
    ∷ returns 6
    ∷ advances 6 0
    ∷ returns 7
    ∷ advances 7 0
    ∷ []

abbrev single_session : List Action
single_session = before_last ++ advances 7 0 ∷ []

single_session_runs : outcome single_threaded single_session ≡ some (finished, 0, 0, [], 0)
unfolding outcome
single_session_runs = refl

-- The last step of the first run but two: the thread sleeps while a fiber waits until 50.
abbrev before_wake : List Action
before_wake =
    advances 0 0
    ∷ add_task (job 7)
    ∷ wakes 1 1
    ∷ advances 0 0
    ∷ advances 0 0
    ∷ suspends (some 50) 10
    ∷ spun 11
    ∷ []

-- The state at the end of a run that succeeds.
final : Mode → List Action → Worker
unfolding outcome is_valid
final m acts = of_run (run_steps acts (start m 0))
  where
    of_run : Run Worker → Worker
    of_run (ok w) = w
    of_run _ = start m 0

run_steps-start_example : Succeeds (run_steps timed_wait (start multi_threaded 0))
unfolding final
run_steps-start_example =
    run_steps-start multi_threaded 0 timed_wait
      (tt, (refl, (tt, (tt, (tt, (tt, (tt, (tt, (tt, (tt, tt))))))))))

asleep-Reached : Reached multi_threaded 0 before_wake (final multi_threaded before_wake)
unfolding final
asleep-Reached = record { allowed = (tt, (refl, (tt, (tt, (tt, (tt, (tt, tt))))))); ends = refl }

Reached-Books_example :
    Books (final multi_threaded before_wake) ⊎ Ending (final multi_threaded before_wake)
unfolding final
Reached-Books_example = Reached-Books asleep-Reached (λ e. absurd (cc))

-- A thread that has been given a task and sleeps.
abbrev given : List Action
given = advances 0 0 ∷ add_task (job 7) ∷ []

given-Reached : Reached multi_threaded 0 given (final multi_threaded given)
unfolding final
given-Reached = record { allowed = (tt, (refl, tt)); ends = refl }

given_runs : (final multi_threaded given).state 0 ≡ State.running
unfolding final
given_runs = refl

Reached-one_running_example :
    (0 ≡ (final multi_threaded given).current_fiber) ⊎ Ending (final multi_threaded given)
unfolding final
Reached-one_running_example =
    Reached-one_running 0 given-Reached (λ e. absurd (cc)) (omega arith) given_runs

Reached-notifies_example : (enqueue_task (job 3) (final multi_threaded before_wake)).1 ≡ true
unfolding final
Reached-notifies_example =
    (Reached-notifies (from_suspend task) (some 50) asleep-Reached refl).0 (job 3)

-- The main fiber waits, and the fiber that ran a task has been left idle for it.
abbrev left_idle : List Action
left_idle =
    add_task (job 1)
    ∷ suspends none 5
    ∷ advances 5 0
    ∷ advances 5 0
    ∷ advances 5 0
    ∷ advances 5 0
    ∷ notify 0
    ∷ returns 6
    ∷ advances 6 0
    ∷ []

left_idle-Inv : Inv (final single_threaded left_idle)
unfolding final
left_idle-Inv = Reached-Inv reached refl
  where
    reached : Reached single_threaded 0 left_idle (final single_threaded left_idle)
    reached = record {
      allowed = (refl, (tt, (tt, (tt, (tt, (tt, (refl, (tt, (tt, tt)))))))));
      ends = refl;
    }

notify_idle_aborts_example :
    (v : Worker × Bool) × (enqueue_fiber 1 (final single_threaded left_idle) ≡ ok v)
    × (run_until_idle v.0 ≡ abort)
unfolding final
notify_idle_aborts_example =
    notify_idle_aborts (final single_threaded left_idle) 1 left_idle-Inv refl refl

abbrev two_tasks : Worker
two_tasks = final multi_threaded (advances 0 0 ∷ add_task (job 1) ∷ add_task (job 2) ∷ [])

enqueue_fiber_timeouts-TimedOut_example :
    (v : Worker) × (enqueue_fiber_timeouts 51 (final multi_threaded before_wake) ≡ ok v)
    × TimedOut 51 (final multi_threaded before_wake) v
unfolding final
enqueue_fiber_timeouts-TimedOut_example =
    enqueue_fiber_timeouts-TimedOut 51 (final multi_threaded before_wake)
      (Reached-Inv asleep-Reached refl)
