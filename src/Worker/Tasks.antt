-- ===== src/Worker/Tasks.antt =====
-- What the thread of a worker does to the queue of its tasks: src/scheduler.cpp.
use mini_marl.Base.{
  erase, length, if◌then◌else◌, ◌-◌, ℕ, zero, suc, ◌+◌, ◌≡◌, ◌∙◌, Bool, true, false, List, [], ◌∷◌,
  ◌++◌, Option, none, some, arith, Run, ok, ◌>>=◌, bind-ok, Bool-cases, inl, inr,
}
use mini_marl.Task.{Task}
use mini_marl.Waiting
use mini_marl.Worker.State.{
  Mode, multi_threaded, single_threaded, State, Job, Code, Resume, active, in_suspend, in_idle,
  Caller, from_run, from_loop, from_suspend, Worker, change_fiber_state, update, sleeping,
  main_fiber, set_fiber_state,
}
use mini_marl.Worker.Queues.{queue_taken, enqueue_timeouts, enqueue_fiber_timeouts}
use mini_marl.Worker.Control.{
  go_on, switch_to_fiber, create_worker_fiber, pick_idle, resume_idle, resume_queued,
  suspend_switch, proceed, may_proceed, leave_wait, work_wait, spin_or_wait, wait_for_work, wake,
  suspend, run_fibers, run_until_shutdown, return_to_main, run,
}

-- A call that succeeds leaves these tasks.
abbrev pub Leaves : List (Task Job) → Run Worker → Type 0
Leaves ts r = (v : Worker) → r ≡ ok v → v.tasks ≡ ts

change_fiber_state-Leaves :
    (f : ℕ) (from to : State) (w : Worker) → Leaves w.tasks (change_fiber_state f from to w)
unfolding change_fiber_state set_fiber_state
change_fiber_state-Leaves f from to w v e = ground arith

go_on-Leaves : (r : Resume) (w : Worker) → Leaves w.tasks (go_on r w)
unfolding go_on set_fiber_state change_fiber_state
go_on-Leaves active w v e = ground arith
go_on-Leaves (in_suspend c) w v e = ground arith
go_on-Leaves in_idle w v e = ground arith

switch_to_fiber-Leaves :
    (left : Resume) (to : ℕ) (w : Worker) → Leaves w.tasks (switch_to_fiber left to w)
unfolding switch_to_fiber
switch_to_fiber-Leaves left to w v e =
    let resume' = update w.resume w.current_fiber left in
    ground (arith, go_on-Leaves (resume' to) (record w { current_fiber = to; resume = resume' }) v)

resume_idle-Leaves : (c : Code) (o : Option ℕ) (w : Worker) → Leaves w.tasks (resume_idle c o w)
unfolding resume_idle create_worker_fiber
resume_idle-Leaves c none w v e =
    switch_to_fiber-Leaves (in_suspend c) (w.worker_fibers + 1)
      (record w { worker_fibers = w.worker_fibers + 1 }) v e
resume_idle-Leaves c (some to) w v e =
    let w1 : Worker = record w { idle_fibers = erase to w.idle_fibers } in
    ground (arith, switch_to_fiber-Leaves (in_suspend c) to w1 v)

resume_queued-Leaves :
    (c : Code) (choice : ℕ) (fs : List ℕ) (w : Worker)
    → Leaves w.tasks (resume_queued c choice fs w)
unfolding resume_queued
resume_queued-Leaves c choice [] w v e = resume_idle-Leaves c (pick_idle choice w.idle_fibers) w v e
resume_queued-Leaves c choice (to ∷ rest) w v e =
    let w1 : Worker = record w { num = w.num - 1; fibers = rest } in
    ground (arith, switch_to_fiber-Leaves (in_suspend c) to w1 v)

pub suspend_switch-Leaves :
    (c : Code) (choice : ℕ) (w : Worker) → Leaves w.tasks (suspend_switch c choice w)
unfolding suspend_switch
suspend_switch-Leaves c choice w v e =
    resume_queued-Leaves c choice w.fibers
      (record w { num_blocked_fibers = w.num_blocked_fibers + 1 }) v e

proceed-Leaves : (c : Caller) (w : Worker) → Leaves w.tasks (proceed c w)
unfolding proceed
proceed-Leaves from_run w v e = ground arith
proceed-Leaves from_loop w v e = ground arith
proceed-Leaves (from_suspend c) w v e = ground arith

queue_taken-Leaves :
    (loop : Worker → Run Worker) (o : Option ℕ) (rest : Waiting.WaitingFibers) (w : Worker)
    → ((x : Worker) → Leaves x.tasks (loop x))
    → Leaves w.tasks (queue_taken loop o rest w)
unfolding queue_taken
queue_taken-Leaves loop none rest w ih v e = ground arith
queue_taken-Leaves loop (some f) rest w ih v e =
    let w1 : Worker = record w { waiting = rest } in
    let next : Worker → Run Worker =
      λ x. loop (record x { fibers = x.fibers ++ f ∷ []; num = x.num + 1 }) in
    let (x, changed, looped) =
      bind-ok (change_fiber_state f State.waiting State.queued w1) next v e in
    ih (record x { fibers = x.fibers ++ f ∷ []; num = x.num + 1 }) v looped
    ∙ change_fiber_state-Leaves f State.waiting State.queued w1 x changed

enqueue_timeouts-Leaves : (n now : ℕ) (w : Worker) → Leaves w.tasks (enqueue_timeouts n now w)
unfolding enqueue_timeouts
enqueue_timeouts-Leaves zero now w v e = absurd (cc)
enqueue_timeouts-Leaves (suc n) now w v e =
    let next : Option ℕ × Waiting.WaitingFibers → Run Worker =
      λ r. queue_taken (enqueue_timeouts n now) r.0 r.1 w in
    let (r, _, queued) = bind-ok (Waiting.take now w.waiting) next v e in
    queue_taken-Leaves (enqueue_timeouts n now) r.0 r.1 w (enqueue_timeouts-Leaves n now) v queued

enqueue_fiber_timeouts-Leaves :
    (now : ℕ) (w : Worker) → Leaves w.tasks (enqueue_fiber_timeouts now w)
unfolding enqueue_fiber_timeouts
enqueue_fiber_timeouts-Leaves now w =
    enqueue_timeouts-Leaves (suc (length w.waiting.timeouts)) now w

-- What `waitForWork` does behind the wait.
queue_and_proceed-Leaves :
    (c : Caller) (now : ℕ) (some_wait : Bool) (w : Worker)
    → Leaves w.tasks ((if some_wait then enqueue_fiber_timeouts now w else ok w) >>= proceed c)
queue_and_proceed-Leaves c now false w v e = proceed-Leaves c w v e
queue_and_proceed-Leaves c now true w v e =
    let (x, queued, gone) = bind-ok (enqueue_fiber_timeouts now w) (proceed c) v e in
    proceed-Leaves c x v gone ∙ enqueue_fiber_timeouts-Leaves now w x queued

leave_wait-Leaves : (c : Caller) (now : ℕ) (w : Worker) → Leaves w.tasks (leave_wait c now w)
unfolding leave_wait
leave_wait-Leaves from_run now w = proceed-Leaves from_run (record w { notify_added = false })
leave_wait-Leaves from_loop now w =
    queue_and_proceed-Leaves from_loop now (Waiting.any_waiting w.waiting)
      (record w { notify_added = false })
leave_wait-Leaves (from_suspend c) now w =
    queue_and_proceed-Leaves (from_suspend c) now (Waiting.any_waiting w.waiting)
      (record w { notify_added = false })

pub work_wait-Leaves : (c : Caller) (now : ℕ) (w : Worker) → Leaves w.tasks (work_wait c now w)
unfolding work_wait
work_wait-Leaves c now w v e = elim (Bool-cases (may_proceed c w)) [
  | inl goes ↦ leave_wait-Leaves c now w v (rw goes at e)
  | inr stays ↦ elim (Bool-cases (Waiting.any_waiting w.waiting)) [
    | inl some_wait ↦
        let k = rw (stays, some_wait) at e in
        let next : ℕ → Run Worker =
          λ t. ok (record w { notify_added = true; pc = sleeping c (some t) }) in
        let (t, _, slept) = bind-ok (Waiting.next w.waiting) next v k in ground arith
    | inr none_wait ↦ let k = rw (stays, none_wait) at e in ground arith
  ]
]

spin_or_wait-Leaves :
    (m : Mode) (c : Caller) (now : ℕ) (w : Worker) → Leaves w.tasks (spin_or_wait m c now w)
unfolding spin_or_wait
spin_or_wait-Leaves multi_threaded c now w v e = ground arith
spin_or_wait-Leaves single_threaded c now w v e = work_wait-Leaves c now w v e

wait_for_work-Leaves : (c : Caller) (now : ℕ) (w : Worker) → Leaves w.tasks (wait_for_work c now w)
unfolding wait_for_work
wait_for_work-Leaves c now w v e =
    ground (arith, proceed-Leaves c w v, spin_or_wait-Leaves w.mode c now w v)

pub wake-Leaves :
    (c : Caller) (limit : Option ℕ) (clock now : ℕ) (w : Worker)
    → Leaves w.tasks (wake c limit clock now w)
unfolding wake
wake-Leaves c none clock now w v e = ground (arith, leave_wait-Leaves c now w v)
wake-Leaves c (some t) clock now w v e = ground (arith, leave_wait-Leaves c now w v)

pub suspend-Leaves :
    (c : Code) (timeout : Option ℕ) (now : ℕ) (w : Worker)
    → Leaves w.tasks (suspend c timeout now w)
unfolding suspend
suspend-Leaves c none now w v e =
    let (x, changed, waited) =
      bind-ok (change_fiber_state w.current_fiber State.running State.yielded w)
        (wait_for_work (from_suspend c) now) v e in
    wait_for_work-Leaves (from_suspend c) now x v waited
    ∙ change_fiber_state-Leaves w.current_fiber State.running State.yielded w x changed
suspend-Leaves c (some t) now w v e =
    let waits : Worker → Waiting.WaitingFibers → Run Worker =
      λ x ws. wait_for_work (from_suspend c) now (record x { waiting = ws }) in
    let (x, changed, added) =
      bind-ok (change_fiber_state w.current_fiber State.running State.waiting w)
        (λ x. Waiting.add t w.current_fiber w.waiting >>= waits x) v e in
    let (ws, _, waited) = bind-ok (Waiting.add t w.current_fiber w.waiting) (waits x) v added in
    wait_for_work-Leaves (from_suspend c) now (record x { waiting = ws }) v waited
    ∙ change_fiber_state-Leaves w.current_fiber State.running State.waiting w x changed

pub run_until_shutdown-Leaves : (now : ℕ) (w : Worker) → Leaves w.tasks (run_until_shutdown now w)
unfolding run_until_shutdown
run_until_shutdown-Leaves now w v e = ground (arith, wait_for_work-Leaves from_loop now w v)

pub return_to_main-Leaves : (w : Worker) → Leaves w.tasks (return_to_main w)
unfolding return_to_main
return_to_main-Leaves w v e = ground (arith, switch_to_fiber-Leaves active main_fiber w v)

pub run-Leaves : (now : ℕ) (w : Worker) → Leaves w.tasks (run now w)
unfolding run
run-Leaves now w v e =
    ground (arith, work_wait-Leaves from_run now w v, proceed-Leaves from_run w v)

pub run_fiber-Leaves :
    (f : ℕ) (rest : List ℕ) (w : Worker) → Leaves w.tasks (run_fibers (f ∷ rest) w)
unfolding run_fibers change_fiber_state
run_fiber-Leaves f rest w v e =
    let w2 : Worker = record w {
      num = w.num - 1;
      fibers = rest;
      state = update w.state w.current_fiber State.idle;
      idle_fibers = w.current_fiber ∷ w.idle_fibers;
    } in
    ground (arith, switch_to_fiber-Leaves in_idle f w2 v)
