-- ===== src/Tests/PoolRuns.antt =====
-- Runs of a pool of two workers: src/scheduler.cpp.
use mini_marl.Base.{
  Bool, ℕ, ◌≡◌, refl, true, false, List, [], ◌∷◌, ◌++◌, some, arith, Run, ok, pick,
}
use mini_marl.Task.{Task, none_, is, same_thread, is_valid}
use mini_marl.Worker.State.{Job, user, from_loop}
use mini_marl.Waiting
use mini_marl.Task
use mini_marl.Worker.Step
use mini_marl.Worker.Control.{
  may_proceed, return_to_main, run, wake, run_until_shutdown, run_until_idle,
}
use mini_marl.Worker.Step.{Action, returns, spun, wakes, advances}
use mini_marl.Pool.{
  Pool, worker, start_pool, Event, call, try_worker, stop_worker, steal_from, accept, act,
  run_events, stop_task, step, step_in, act_worker, after_act, call_enqueue, try_next, steal_by,
  accept_by,
}
use mini_marl.Pool.Sound.{Ends}
use mini_marl.Pool.Safety.{run_events-start, AllAllowed}
use mini_marl.Pool.Ledger.{run_events_balanced}
use mini_marl.Pool.Balance.{Balanced}
use mini_marl.Pool.Stop.{theft, Sleeps, Spins, run_events-theft}

abbrev job : ℕ → Task Job
job n = record { function_ = some (user n); flags_ = none_ }

abbrev goes : ℕ → Event
goes i = act i (advances 0 0)

-- A worker wakes, runs its task, and spins.
abbrev works : ℕ → List Event
works i = act i (wakes 1 1) ∷ goes i ∷ goes i ∷ act i (returns 2) ∷ goes i ∷ goes i ∷ []

-- Each worker gets a task; worker 1 runs its own.
abbrev half : List Event
half =
    goes 0 ∷ goes 1 ∷ call (job 1) ∷ try_worker 0 true ∷ call (job 2) ∷ try_worker 0 true ∷ works 1

-- Worker 1 steals the task of worker 0.
abbrev robbery : List Event
robbery = half ++ steal_from 1 0 true ∷ accept 1 ∷ act 1 (spun 3) ∷ []

-- Where a run ends, or `p` where it does not.
abbrev result : Pool → Run Pool → Pool
result p (ok q) = q
result p _ = p

abbrev is_ok : Run Pool → Bool
is_ok (ok _) = true
is_ok _ = false

result_ok : (p : Pool) (r : Run Pool) → is_ok r ≡ true → r ≡ ok (result p r)
result_ok p (ok q) e = refl
result_ok p Run.abort e = absurd (cc)
result_ok p Run.undefined e = absurd (cc)
result_ok p Run.out_of_fuel e = absurd (cc)

final : ℕ → List Event → Pool
unfolding run_events start_pool step step_in act_worker after_act call_enqueue try_next stop_worker
    steal_by accept_by Step.step Step.advance run Waiting.any_waiting Waiting.no_waiting pick is
    Step.woken wake run_until_shutdown run_until_idle Task.call Step.returned Step.spun_out is_valid
    return_to_main
final n es = result (start_pool n) (run_events es (start_pool n))

robbery_runs :
    ((final 2 robbery).started ≡ job 2 ∷ [])
    × ((worker 0 (final 2 robbery)).tasks ≡ [])
    × ((worker 1 (final 2 robbery)).tasks ≡ job 1 ∷ [])
unfolding final
robbery_runs = (refl, refl, refl)

robbery-AllAllowed : AllAllowed robbery (start_pool 2)
unfolding final
robbery-AllAllowed =
    (tt, (tt, (refl, (tt, (refl, (tt, (tt, (tt, (tt, (tt, (tt, (tt, (tt, (tt, (tt, tt)))))))))))))))

run_events-start_example : Ends (run_events robbery (start_pool 2))
run_events-start_example = run_events-start 2 robbery (omega arith) robbery-AllAllowed

robbery_ends : run_events robbery (start_pool 2) ≡ ok (final 2 robbery)
unfolding final
robbery_ends = result_ok (start_pool 2) (run_events robbery (start_pool 2)) refl

run_events_balanced_example : Balanced (λ t. is t same_thread) (final 2 robbery)
run_events_balanced_example =
    run_events_balanced (λ t. is t same_thread) 2 robbery (final 2 robbery) (omega arith)
      robbery-AllAllowed robbery_ends

-- Both workers have run their tasks; worker 0 sleeps, and worker 1 spins.
abbrev at_rest : Pool
at_rest = final 2 (half ++ works 0 ++ act 0 (spun 3) ∷ [])

sleeper-Sleeps : Sleeps (worker 0 at_rest)
unfolding final
sleeper-Sleeps = record { sleeps = refl; no_work = refl; no_tasks = refl; none_blocked = refl }

spinner-Spins : Spins (worker 1 at_rest)
unfolding final
spinner-Spins = record {
  spins = refl;
  nothing = refl;
  none_queued = refl;
  no_fibers = refl;
  none_waiting = refl;
  runs = refl;
}

run_events-theft_example :
    (q : Pool) × (run_events (theft 0 1) at_rest ≡ ok q)
    × (q.started ≡ stop_task 0 ∷ at_rest.started)
    × Sleeps (worker 0 q)
    × ((worker 0 q).shutdown ≡ true)
    × (may_proceed from_loop (worker 0 q) ≡ true)
    × (q.notified 0 ≡ false)
unfolding final
run_events-theft_example =
    run_events-theft 0 1 at_rest (λ e. absurd (omega (arith, e))) (omega arith) (omega arith)
      sleeper-Sleeps refl spinner-Spins refl
