-- ===== src/Tests/SchedulerRuns.antt =====
-- Runs of the scheduler: src/scheduler.cpp.
use mini_marl.Base.{◌≡◌, refl, Bool, true, false, [], ◌∷◌, some, arith, ok}
use mini_marl.Task.{Task, none_, is}
use mini_marl.Worker.State.{Job, user, update}
use mini_marl.Worker.Queues.{enqueue_task}
use mini_marl.Scheduler.{Scheduler, make, thread, enqueue, enqueue_any, on_begin_spinning}
use mini_marl.Scheduler.Laws.{Valid, Adds, enqueue_any-Adds, on_begin_spinning-enqueue}

abbrev job : Task Job
job = record { function_ = some (user 4); flags_ = none_ }

make_two-Valid : Valid (make 2)
unfolding make
make_two-Valid = record { spins = λ i id e. absurd (cc); some_worker = omega arith }

enqueue_any-Adds_example :
    (s' : Scheduler) × (n : Bool) × (enqueue_any (false ∷ true ∷ []) job (make 2) ≡ ok (s', n))
    × Adds job n (make 2) s'
enqueue_any-Adds_example = enqueue_any-Adds (false ∷ true ∷ []) job (make 2) make_two-Valid refl

on_begin_spinning-enqueue_example :
    (s' : Scheduler) × (enqueue (true ∷ []) (thread 9) job (on_begin_spinning 1 (make 2))
      ≡ ok (s', (enqueue_task job ((make 2).worker_threads 1)).1))
    × (s'.worker_threads
        ≡ update (make 2).worker_threads 1 (enqueue_task job ((make 2).worker_threads 1)).0)
    × (s'.next_spinning_worker_index ≡ (make 2).next_spinning_worker_index)
unfolding make is
on_begin_spinning-enqueue_example =
    on_begin_spinning-enqueue 1 (thread 9) job [] (make 2) (omega arith) (omega arith) refl
