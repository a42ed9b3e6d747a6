-- ===== src/Pool/Stop.antt =====
-- `Worker::stop` in a pool: its lambda has no flag `SameThread`, so that another worker can steal it.
use mini_marl.Base.{
  ℕ, ◌+◌, ◌-◌, ◌<◌, ◌≡◌, ◌≢◌, refl, sym, ◌∙◌, ap, subst, Bool, true, false, ◌||◌, List, [], ◌∷◌,
  none, some, arith, ok,
}
use mini_marl.Task.{call, is}
use mini_marl.Waiting
use mini_marl.Worker.State.{State, shut_down, from_loop, spinning, sleeping, until_idle, Worker}
use mini_marl.Worker.Queues.{enqueue_task, accept_stolen, steal, steal_first}
use mini_marl.Worker.Control.{
  wake, may_proceed, work_wait, leave_wait, proceed, in_sync, run_until_idle, run_fibers, run_tasks,
  run_job,
}
use mini_marl.Worker.Step
use mini_marl.Worker.Step.{Action, wakes, spun, advances, is_unlocked}
use mini_marl.Worker.Begins.{begun, begun_at}
use mini_marl.Pool.{
  Pool, worker, Event, stop, steal_from, accept, act, stop_task, tell, step, run_events,
}
use mini_marl.Pool.Stage.{
  Stage, stop-Stage, steal-Stage, accept-Stage, wake-Stage, act-Stage, tell_stop, tell_self,
}

-- The thread of a worker with nothing to do sleeps in `waitForWork`, with no deadline.
pub record Sleeps (w : Worker) : Type 0 where
  pub sleeps : w.pc ≡ sleeping from_loop none
  pub no_work : w.num ≡ 0
  pub no_tasks : w.tasks ≡ []
  pub none_blocked : w.num_blocked_fibers ≡ 0

-- The thread of a worker spins, with nothing to do and no fiber that waits.
pub record Spins (w : Worker) : Type 0 where
  pub spins : w.pc ≡ spinning from_loop
  pub nothing : w.num ≡ 0
  pub none_queued : w.tasks ≡ []
  pub no_fibers : w.fibers ≡ []
  pub none_waiting : Waiting.any_waiting w.waiting ≡ false
  pub runs : w.state w.current_fiber ≡ State.running

-- `stop` notifies the worker, but a thief takes the task before the worker wakes.
abbrev pub theft : ℕ → ℕ → List Event
theft i j =
    stop i
    ∷ steal_from j i true
    ∷ act i (wakes 0 0)
    ∷ accept j
    ∷ act j (spun 0)
    ∷ act j (advances 0 0)
    ∷ []

-- The sleeping worker through the theft.
abbrev asked : ℕ → Worker → Worker
asked i w = (enqueue_task (stop_task i) w).0

queued_asleep : (i : ℕ) (w : Worker) → is_unlocked w.pc ≡ true → is_unlocked (asked i w).pc ≡ true
unfolding enqueue_task
queued_asleep i w h = h

steal-asked :
    (i : ℕ) (w : Worker)
    → Sleeps w
    → steal true (asked i w) ≡ (record w { tasks = []; num = (w.num + 1) - 1 }, some (stop_task i))
unfolding enqueue_task steal steal_first is
steal-asked i w s = rw (s.no_tasks, s.no_work) refl

wakes_idle :
    (w : Worker)
    → w.pc ≡ sleeping from_loop none
    → w.num ≡ 0
    → w.shutdown ≡ false
    → Step.step (wakes 0 0) w ≡ ok w
unfolding Step.step Step.woken wake may_proceed
wakes_idle w e n up =
    let stays : wake from_loop none 0 0 w ≡ ok w = ground arith in
    ap (λ pc. Step.woken pc 0 0 w) e ∙ stays

-- The thief once it has queued the task, and left `waitForWork`.
abbrev robber : ℕ → Worker → Worker
robber i w = record w { tasks = stop_task i ∷ []; num = 1; notify_added = false; pc = until_idle }

accepted_stop :
    (i : ℕ) (w : Worker)
    → Spins w
    → accept_stolen (stop_task i) w ≡ record w { tasks = stop_task i ∷ []; num = 1 }
unfolding accept_stolen
accepted_stop i w s = ground (arith, s.none_queued, s.nothing)

spun_stop :
    (i : ℕ) (w : Worker)
    → Spins w
    → Step.step (spun 0) (record w { tasks = stop_task i ∷ []; num = 1 }) ≡ ok (robber i w)
unfolding Step.step Step.spun_out work_wait may_proceed leave_wait proceed in_sync
spun_stop i w s = rw (s.spins, s.none_waiting, s.runs, s.no_fibers) refl

calls_stop : (i : ℕ) (w : Worker) → Spins w → begun (advances 0 0) (robber i w) ≡ some (stop_task i)
unfolding begun begun_at
calls_stop i w s = rw s.no_fibers refl

spun_calls_none : (w : Worker) → begun (spun 0) w ≡ none
unfolding begun
spun_calls_none w = refl

tell-none : (k l : ℕ) (ws : ℕ → Worker) → tell none l ws k ≡ ws k
unfolding tell
tell-none k l ws = refl

runs_stop :
    (i : ℕ) (w : Worker) → Spins w → (v : Worker) × (Step.step (advances 0 0) (robber i w) ≡ ok v)
unfolding Step.step Step.advance run_until_idle run_fibers run_tasks call
runs_stop i w s =
    (run_job (shut_down i) (record (robber i w) { num = 0; tasks = [] }), rw s.no_fibers refl)

run_cons :
    (e : Event) (es : List Event) (p q r : Pool)
    → step e p ≡ ok q
    → run_events es q ≡ ok r
    → run_events (e ∷ es) p ≡ ok r
unfolding run_events
run_cons e es p q r h k = rw h k

run_nil : (p : Pool) → run_events [] p ≡ ok p
unfolding run_events
run_nil p = refl

may_shut_down :
    (w : Worker)
    → w.num ≡ (0 + 1) - 1
    → w.num_blocked_fibers ≡ 0
    → may_proceed from_loop (record w { shutdown = true }) ≡ true
unfolding may_proceed
may_shut_down w e f = ground (arith, e, f)

-- In a pool where the thread of worker `i` sleeps with nothing to do, and the thread of another worker
-- `j` spins with nothing to do: after `stop` of `i`, a theft of its task by `j` before `i` wakes, and the
-- call of the task by `j`, the flag `shutdown` of `i` is set and the predicate that its thread waits for
-- holds, but the thread sleeps as before, with no deadline, and nobody has notified it since it woke.
pub run_events-theft :
    (i j : ℕ) (p : Pool)
    → j ≢ i
    → i < p.scheduler.worker_count
    → j < p.scheduler.worker_count
    → Sleeps (worker i p)
    → (worker i p).shutdown ≡ false
    → Spins (worker j p)
    → p.stolen j ≡ none
    → (q : Pool) × (run_events (theft i j) p ≡ ok q)
      × (q.started ≡ stop_task i ∷ p.started)
      × Sleeps (worker i q)
      × ((worker i q).shutdown ≡ true)
      × (may_proceed from_loop (worker i q) ≡ true)
      × (q.notified i ≡ false)
run_events-theft i j p apart hi hj sl up sp empty =
    let wi = worker i p in
    let wj = worker j p in
    let b1 : Bool = p.notified i || (enqueue_task (stop_task i) wi).1 in
    let robbed : Worker = record wi { tasks = []; num = (wi.num + 1) - 1 } in
    let queued : Worker = record wj { tasks = stop_task i ∷ []; num = 1 } in
    let s0 : Stage i j apart p wi wj none (p.notified i) p.started = record {
      i_there = hi;
      j_there = hj;
      at_i = refl;
      at_j = refl;
      in_hand = empty;
      notified = refl;
      started = refl;
    } in
    let asleep : is_unlocked wi.pc ≡ true = rw sl.sleeps refl in
    let (p1, e1, s1) = stop-Stage i j apart p wi wj (p.notified i) p.started asleep s0 in
    let (p2, e2, s2) =
      steal-Stage i j apart p1 (asked i wi) robbed wj from_loop (stop_task i) b1 p.started
        (queued_asleep i wi asleep) sp.spins (steal-asked i wi sl) s1 in
    let (p3, e3, s3) =
      wake-Stage i j apart p2 robbed robbed wj (some (stop_task i)) b1 p.started 0 0
        (wakes_idle robbed sl.sleeps (omega (arith, sl.no_work)) up) s2 in
    let (p4, e4, s4) =
      accept-Stage i j apart p3 robbed wj from_loop (stop_task i) false p.started sp.spins s3 in
    let (p5, e5, s5) =
      act-Stage i j apart p4 robbed queued (robber i wj) none none false p.started (spun 0) (λ w. w)
        refl (spun_calls_none queued) (tell-none i j) (tell-none j j) (spun_stop i wj sp)
        (subst (λ w. Stage i j apart p4 robbed w none false p.started) (accepted_stop i wj sp)
          s4) in
    let (v, ran) = runs_stop i wj sp in
    let (p6, e6, s6) =
      act-Stage i j apart p5 robbed (robber i wj) v none (some (stop_task i)) false p.started
        (advances 0 0) (λ w. record w { shutdown = true }) refl (calls_stop i wj sp)
        (tell_stop i j apart) (tell_self i j apart) ran s5 in
    let last : worker i p6 ≡ record robbed { shutdown = true } = s6.at_i in
    (
      p6,
      run_cons _ _ p p1 p6 e1 (
          run_cons _ _ p1 p2 p6 e2 (
            run_cons _ _ p2 p3 p6 e3 (
              run_cons _ _ p3 p4 p6 e4
                (run_cons _ _ p4 p5 p6 e5 (run_cons _ _ p5 p6 p6 e6 (run_nil p6)))))),
      s6.started,
      subst Sleeps (sym last) (record {
        sleeps = sl.sleeps;
        no_work = omega (arith, sl.no_work);
        no_tasks = refl;
        none_blocked = sl.none_blocked;
      }),
      ap (λ w. w.shutdown) last,
      rw last (may_shut_down robbed (omega (arith, sl.no_work)) sl.none_blocked),
      s6.notified,
    )
