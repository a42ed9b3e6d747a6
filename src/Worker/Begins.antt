-- ===== src/Worker/Begins.antt =====
-- Which task begins in an action of a worker, and that all others stay queued: src/scheduler.cpp.
use mini_marl.Base.{
  ℕ, ◌-◌, ◌≡◌, refl, sym, subst, ap, Bool, true, false, List, [], ◌∷◌, Option, none, some, arith,
  Run, ok, ◌>>=◌, bind-ok,
}
use mini_marl.Task
use mini_marl.Task.{Task}
use mini_marl.Waiting
use mini_marl.Worker.State.{
  task, bound, State, Job, shut_down, user, Worker, Pc, in_code, spinning, sleeping, before_run,
  starting, until_shutdown, until_idle, awake, returning, finished,
}
use mini_marl.Worker.Queues.{enqueue_fiber, enqueue_in, push_fiber}
use mini_marl.Worker.Control.{run_job, run_tasks, run_fibers, run_until_idle}
use mini_marl.Worker.Step.{
  Action, add_task, notify, stolen_from, suspends, returns, accepts, spun, wakes, advances, told,
  is_unlocked, advance, code_returns, spun_out, woken, suspended, returned, called, step,
}
use mini_marl.Worker.Tasks.{
  Leaves, run-Leaves, run_until_shutdown-Leaves, suspend_switch-Leaves, return_to_main-Leaves,
  run_fiber-Leaves, suspend-Leaves, work_wait-Leaves, wake-Leaves,
}

-- The actions of the thread itself, and those of others that do not touch the tasks.
abbrev pub is_own : Action → Bool
is_own (add_task _) = false
is_own (stolen_from _) = false
is_own (accepts _) = false
is_own _ = true

-- The task that `runUntilIdle` begins in an action.
unfoldable pub begun_at : Pc → List ℕ → List (Task Job) → Option (Task Job)
begun_at until_idle [] (t ∷ ts) = some t
begun_at _ _ _ = none

unfoldable pub begun : Action → Worker → Option (Task Job)
unfolding begun_at
begun (advances now choice) w = begun_at w.pc w.fibers w.tasks
begun _ w = none

abbrev pub before : Option (Task Job) → List (Task Job) → List (Task Job)
before none ts = ts
before (some t) ts = t ∷ ts

run_job-Leaves : (j : Job) (w : Worker) → Leaves w.tasks (ok (run_job j w))
unfolding run_job
run_job-Leaves (shut_down id) w v e = ground arith
run_job-Leaves (user n) w v e = ground arith

run_tasks-Begins :
    (ts : List (Task Job)) (w v : Worker)
    → w.tasks ≡ ts
    → run_tasks ts w ≡ ok v
    → ts ≡ before (begun_at until_idle [] ts) v.tasks
unfolding run_tasks begun_at
run_tasks-Begins [] w v h e = ground arith
run_tasks-Begins (t ∷ ts) w v h e =
    let w1 : Worker = record w { num = w.num - 1; tasks = ts } in
    let (job, _, ran) = bind-ok (Task.call t) (λ (j : Job). ok (run_job j w1)) v e in
    ap (λ us. t ∷ us) (sym (run_job-Leaves job w1 v ran))

-- What an action leaves of the tasks: all but the one that begins.
abbrev pub Begins : Option (Task Job) → Worker → Run Worker → Type 0
Begins o w r = (v : Worker) → r ≡ ok v → w.tasks ≡ before o v.tasks

run_until_idle-Begins :
    (fs : List ℕ) (w : Worker) → Begins (begun_at until_idle fs w.tasks) w (run_fibers fs w)
unfolding run_fibers begun_at
run_until_idle-Begins [] w v e = run_tasks-Begins w.tasks w v refl e
run_until_idle-Begins (f ∷ rest) w v e = sym (run_fiber-Leaves f rest w v e)

advance-Begins :
    (pc : Pc) (now choice : ℕ) (w : Worker)
    → Begins (begun_at pc w.fibers w.tasks) w (advance pc now choice w)
unfolding advance begun_at run_until_idle
advance-Begins before_run now choice w v e = sym (run-Leaves now w v e)
advance-Begins starting now choice w v e = sym (run-Leaves now w v e)
advance-Begins until_shutdown now choice w v e = sym (run_until_shutdown-Leaves now w v e)
advance-Begins until_idle now choice w v e = run_until_idle-Begins w.fibers w v e
advance-Begins (awake c) now choice w v e = sym (suspend_switch-Leaves c choice w v e)
advance-Begins returning now choice w v e = sym (return_to_main-Leaves w v e)
advance-Begins (in_code _) now choice w v e = ground arith
advance-Begins (spinning _) now choice w v e = ground arith
advance-Begins (sleeping _ _) now choice w v e = ground arith
advance-Begins finished now choice w v e = ground arith

-- The tasks are the same, and the thread stands where it stood.
abbrev pub Stays : Worker → Worker → Type 0
Stays w v = (v.tasks ≡ w.tasks) × (v.pc ≡ w.pc)

push_fiber-Stays : (f : ℕ) (w : Worker) (r : Worker × Bool) → push_fiber f w ≡ ok r → Stays w r.0
unfolding push_fiber
push_fiber-Stays f w r e = ground arith

enqueue_in-Stays :
    (s : State) (f : ℕ) (w : Worker) (r : Worker × Bool) → enqueue_in s f w ≡ ok r → Stays w r.0
unfolding enqueue_in
enqueue_in-Stays State.running f w r e = ground arith
enqueue_in-Stays State.queued f w r e = ground arith
enqueue_in-Stays State.idle f w r e = push_fiber-Stays f w r e
enqueue_in-Stays State.yielded f w r e = push_fiber-Stays f w r e
enqueue_in-Stays State.waiting f w r e =
    let pushes : Waiting.WaitingFibers → Run (Worker × Bool) =
      λ rest. push_fiber f (record w { waiting = rest }) in
    let (rest, _, pushed) = bind-ok (Waiting.erase f w.waiting) pushes r e in
    push_fiber-Stays f (record w { waiting = rest }) r pushed

pub notify-Stays : (f : ℕ) (w v : Worker) → (enqueue_fiber f w >>= λ r. ok r.0) ≡ ok v → Stays w v
unfolding enqueue_fiber
notify-Stays f w v e =
    let (r, queued, same) =
      bind-ok (enqueue_in (w.state f) f w) (λ (r : Worker × Bool). ok r.0) v e in
    let last : r.0 ≡ v = cc in subst (Stays w) last (enqueue_in-Stays (w.state f) f w r queued)

notify-Begins : (f : ℕ) (w : Worker) → Begins none w (enqueue_fiber f w >>= λ r. ok r.0)
notify-Begins f w v e = sym (notify-Stays f w v e).0

called-Begins :
    (u : Bool) (r : Run Worker) (w : Worker) → Begins none w r → Begins none w (called u r w)
unfolding called
called-Begins true r w h v e = h v e
called-Begins false r w h v e = ground arith

suspended-Begins :
    (pc : Pc) (timeout : Option ℕ) (now : ℕ) (w : Worker)
    → Begins none w (suspended pc timeout now w)
unfolding suspended
suspended-Begins (in_code c) timeout now w v e = sym (suspend-Leaves c timeout now w v e)
suspended-Begins _ timeout now w v e = ground arith

spun_out-Begins : (pc : Pc) (now : ℕ) (w : Worker) → Begins none w (spun_out pc now w)
unfolding spun_out
spun_out-Begins (spinning c) now w v e = sym (work_wait-Leaves c now w v e)
spun_out-Begins _ now w v e = ground arith

woken-Begins : (pc : Pc) (clock now : ℕ) (w : Worker) → Begins none w (woken pc clock now w)
unfolding woken
woken-Begins (sleeping c limit) clock now w v e = sym (wake-Leaves c limit clock now w v e)
woken-Begins _ clock now w v e = ground arith

returned-Begins : (pc : Pc) (w : Worker) → Begins none w (ok (returned pc w))
unfolding returned code_returns
returned-Begins (in_code task) w v e = ground arith
returned-Begins (in_code bound) w v e = ground arith
returned-Begins _ w v e = ground arith

-- Every action of the thread of a worker, and `notify`, keeps the tasks but for the one that begins.
pub step-Begins : (a : Action) (w : Worker) → is_own a ≡ true → Begins (begun a w) w (step a w)
unfolding step begun
step-Begins (add_task _) w own v e = absurd (cc)
step-Begins (stolen_from _) w own v e = absurd (cc)
step-Begins (accepts _) w own v e = absurd (cc)
step-Begins (notify f) w own v e =
    called-Begins (is_unlocked w.pc) (enqueue_fiber f w >>= λ r. ok r.0) w (notify-Begins f w) v e
step-Begins (suspends timeout now) w own v e = suspended-Begins w.pc timeout now w v e
step-Begins (returns now) w own v e = returned-Begins w.pc w v e
step-Begins (spun now) w own v e = spun_out-Begins w.pc now w v e
step-Begins (wakes clock now) w own v e = woken-Begins w.pc clock now w v e
step-Begins (advances now choice) w own v e = advance-Begins w.pc now choice w v e
step-Begins told w own v e = ground arith
