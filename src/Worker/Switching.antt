-- ===== src/Worker/Switching.antt =====
-- A round of `runUntilIdle` keeps the invariant of the worker, and none of its assertions fails.
use mini_marl.Base.{ℕ, ◌-◌, ◌≡◌, refl, List, [], ◌∷◌, arith, ok}
use mini_marl.Task.{Task, call_lem}
use mini_marl.Worker.State.{State, Job, shut_down, user, Worker, until_shutdown}
use mini_marl.Worker.Control.{run_fibers, run_job, run_tasks, run_until_idle}
use mini_marl.Worker.Inv.{Core, state_of}
use mini_marl.Worker.Rotation.{Leads, run_fibers-Leads}

less_task :
    (w : Worker) (t : Task Job) (ts : List (Task Job))
    → Core w
    → w.tasks ≡ t ∷ ts
    → Core (record w { num = w.num - 1; tasks = ts })
less_task w t ts c e = record {
  num_sync = ground (arith, c.num_sync);
  valid = ground (arith, c.valid);
  synced = c.synced;
  blocked_count = c.blocked_count;
  each = c.each;
}

-- The worker after `runUntilIdle` has taken the first task and called it.
run_job-Leads :
    (job : Job) (w : Worker) (t : Task Job) (ts : List (Task Job))
    → Core w
    → w.tasks ≡ t ∷ ts
    → state_of w ≡ State.running
    → Leads (ok (run_job job (record w { num = w.num - 1; tasks = ts })))
unfolding run_job
run_job-Leads (shut_down id) w t ts c e runs =
    (_, refl, record { core = less_task w t ts c e; phase = runs })
run_job-Leads (user n) w t ts c e runs =
    (_, refl, record { core = less_task w t ts c e; phase = runs })

run_tasks-Leads : (w : Worker) → Core w → state_of w ≡ State.running → Leads (run_tasks w.tasks w)
run_tasks-Leads w c runs = go w.tasks refl
  where
    go : (ts : List (Task Job)) → w.tasks ≡ ts → Leads (run_tasks ts w)
    go [] e =
        unfold run_tasks in
        (record w { pc = until_shutdown }, refl, record { core = c; phase = runs })
    go (t ∷ ts) e =
        let (job, called) = call_lem t (ground (arith, c.valid)) in
        unfold run_tasks in rw called (run_job-Leads job w t ts c e runs)

-- A round of `runUntilIdle` passes its assertions.
pub run_until_idle-Leads :
    (w : Worker) → Core w → state_of w ≡ State.running → Leads (run_until_idle w)
unfolding run_until_idle
run_until_idle-Leads w c runs = go w.fibers refl
  where
    go : (fs : List ℕ) → w.fibers ≡ fs → Leads (run_fibers fs w)
    go [] e = unfold run_fibers in run_tasks-Leads w c runs
    go (f ∷ rest) e = run_fibers-Leads w f rest c e runs
