-- ===== src/Tests/TeardownRuns.antt =====
-- A run of the destructor of a scheduler of two workers: src/scheduler.cpp.
use mini_marl.Base.{
  Bool, ◌+◌, ◌<◌, ℕ, ◌≡◌, refl, true, false, List, [], ◌∷◌, ◌++◌, some, arith, Run, ok, pick,
}
use mini_marl.Task.{Task, none_, is, same_thread, is_valid}
use mini_marl.Worker.State.{Job, user, finished}
use mini_marl.Waiting
use mini_marl.Task
use mini_marl.Worker.Step
use mini_marl.Worker.Control.{return_to_main, run, wake, run_until_shutdown, run_until_idle}
use mini_marl.Worker.Step.{Action, returns, spun, wakes, advances}
use mini_marl.Pool.{
  worker, start_pool, call, try_worker, act, stop_task, step, step_in, act_worker, after_act,
  call_enqueue, try_next, stop_worker,
}
use mini_marl.Pool.Amounts.{amount, total}
use mini_marl.Pool.Teardown.{
  Teardown, start_teardown, destroyed, Move, goes, proceeds, unbinds, move, run_moves, go_on,
  stop_next,
}
use mini_marl.Pool.Teardown.Joined.{run_moves_joined, AllAllowedMoves}

abbrev job : ℕ → Task Job
job n = record { function_ = some (user n); flags_ = none_ }

abbrev on : ℕ → Move
on i = goes (act i (advances 0 0))

-- A worker runs its last task, and its thread ends.
abbrev ends : ℕ → List Move
ends i = on i ∷ goes (act i (returns 2)) ∷ on i ∷ on i ∷ on i ∷ proceeds ∷ []

-- The last thread unbinds; worker 1 is stopped and ends, then worker 0 gets a task, and another task is
-- queued at worker 1; worker 0 is stopped, runs its task and ends.
abbrev session : List Move
session =
    on 0
      ∷ on 1
      ∷ proceeds
      ∷ unbinds
      ∷ proceeds
      ∷ proceeds
      ∷ goes (act 1 (wakes 1 1))
      ∷ on 1
      ∷ ends 1
    ++ goes (call (job 1))
      ∷ goes (try_worker 0 true)
      ∷ goes (call (job 2))
      ∷ goes (try_worker 0 true)
      ∷ proceeds
      ∷ goes (act 0 (wakes 4 4))
      ∷ on 0
      ∷ on 0
      ∷ goes (act 0 (returns 4))
      ∷ ends 0
    ++ proceeds ∷ proceeds ∷ proceeds ∷ proceeds ∷ []

-- Where a run ends, or `d` where it does not.
abbrev result : Teardown → Run Teardown → Teardown
result d (ok r) = r
result d _ = d

abbrev is_ok : Run Teardown → Bool
is_ok (ok _) = true
is_ok _ = false

result_ok : (d : Teardown) (r : Run Teardown) → is_ok r ≡ true → r ≡ ok (result d r)
result_ok d (ok r) e = refl
result_ok d Run.abort e = absurd (cc)
result_ok d Run.undefined e = absurd (cc)
result_ok d Run.out_of_fuel e = absurd (cc)

last : Teardown
unfolding run_moves move go_on stop_next start_pool step step_in act_worker after_act call_enqueue
    try_next stop_worker Step.step Step.advance run Waiting.any_waiting Waiting.no_waiting pick is
    Step.woken wake run_until_shutdown run_until_idle Task.call Step.returned is_valid
    return_to_main
last = result (start_teardown 2 1) (run_moves session (start_teardown 2 1))

last_ends : run_moves session (start_teardown 2 1) ≡ ok last
unfolding last
last_ends = result_ok (start_teardown 2 1) (run_moves session (start_teardown 2 1)) refl

last_destroyed : last.phase ≡ destroyed
unfolding last
last_destroyed = refl

last_settled : last.pool.pending ≡ []
unfolding last
last_settled = refl

-- The second task is lost.
last_loses :
    (last.pool.left 1 ≡ job 2 ∷ []) × (last.pool.started ≡ stop_task 0 ∷ job 1 ∷ stop_task 1 ∷ [])
unfolding last
last_loses = (refl, refl)

session-AllAllowedMoves : AllAllowedMoves session (start_teardown 2 1)
unfolding last
session-AllAllowedMoves = (
  tt,
  (
    tt,
    (
      tt,
      (
        tt,
        (
          tt,
          (
            tt,
            (
              tt,
              (
                tt,
                (
                  tt,
                  (
                    tt,
                    (
                      tt,
                      (
                        tt,
                        (
                          tt,
                          (
                            tt,
                            (
                              refl,
                              (
                                tt,
                                (
                                  refl,
                                  (
                                    tt,
                                    (
                                      tt,
                                      (
                                        tt,
                                        (
                                          tt,
                                          (
                                            tt,
                                            (
                                              tt,
                                              (
                                                tt,
                                                (
                                                  tt,
                                                  (
                                                    tt,
                                                    (tt, (tt, (tt, (tt, (tt, (tt, (tt, tt))))))),
                                                  ),
                                                ),
                                              ),
                                            ),
                                          ),
                                        ),
                                      ),
                                    ),
                                  ),
                                ),
                              ),
                            ),
                          ),
                        ),
                      ),
                    ),
                  ),
                ),
              ),
            ),
          ),
        ),
      ),
    ),
  ),
)

run_moves_joined_example :
    ((i : ℕ) → i < last.pool.scheduler.worker_count → (worker i last.pool).pc ≡ finished)
    × (amount (λ t. is_valid t) last.pool.given
        ≡ amount (λ t. is_valid t) last.pool.started
          + total last.pool.scheduler.worker_count
              (λ i. amount (λ t. is_valid t) (last.pool.left i)))
run_moves_joined_example =
    run_moves_joined (λ t. is_valid t) 2 1 session last (omega arith) session-AllAllowedMoves
      last_ends last_destroyed last_settled
