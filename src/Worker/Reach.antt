-- ===== src/Worker/Reach.antt =====
-- What holds of a worker after any run: the books that it keeps on its fibers, and the wake-ups.
use mini_marl.Base.{
  ℕ, ◌+◌, ◌≤◌, ◌≡◌, ◌≢◌, ◌⊎◌, refl, Bool, true, false, List, [], ◌∷◌, Option, some, arith, ◌-◌,
  subst, Bool-cases, ◌==◌, ind, length, count, ok, abort, inl, inr, not, ◌||◌,
}
use mini_marl.Task.{Task, is, same_thread}
use mini_marl.Waiting
use mini_marl.Worker.State.{
  Mode, State, state_eq, Job, Resume, active, in_suspend, in_idle, Worker, sleeping, finished,
  start, set_fiber_state, Caller,
}
use mini_marl.Worker.Queues.{
  enqueue_fiber, enqueue_in, push_fiber, enqueue_task, steal, steal_first,
}
use mini_marl.Worker.Control.{run_until_idle, run_fibers}
use mini_marl.Worker.Inv.{Inv, Ending, Good, fits, is_last, Phase}
use mini_marl.Worker.Queueing.{enqueue_fiber_asleep, queue_up}
use mini_marl.Worker.Waits.{nil_of_length}
use mini_marl.Worker.Step.{Action, run_steps}
use mini_marl.Worker.Safety.{AllAllowed, run_steps-start}

-- `w` is the state after some run in which the program keeps to its duties.
pub record Reached (m : Mode) (id : ℕ) (acts : List Action) (w : Worker) : Type 0 where
  pub allowed : AllAllowed acts (start m id)
  pub ends : run_steps acts (start m id) ≡ ok w

Reached-Good : {m : Mode} {id : ℕ} {acts : List Action} {w : Worker} → Reached m id acts w → Good w
Reached-Good {m} {id} {acts} {w} r =
    let (v, e, good) = run_steps-start m id acts r.allowed in
    let same : v ≡ w = ground (arith, e, r.ends) in subst Good same good

pub Reached-Inv :
    {m : Mode} {id : ℕ} {acts : List Action} {w : Worker}
    → Reached m id acts w
    → is_last w.pc ≡ false
    → Inv w
Reached-Inv r h = elim (Reached-Good r) [
  | inl inv ↦ inv
  | inr ending ↦ absurd (cc (h, ending.last))
]

-- The books of a worker: the atomic counter is the number of queued fibers and tasks, and each
-- fiber is in the queue, in the set of idle fibers and in the waiting list exactly as its state
-- says, and at most once in the first two.
pub record Books (w : Worker) : Type 0 where
  pub num : w.num ≡ length w.fibers + length w.tasks
  pub queue : (f : ℕ) → count f w.fibers ≡ ind (state_eq (w.state f) State.queued)
  pub idle : (f : ℕ) → count f w.idle_fibers ≡ ind (state_eq (w.state f) State.idle)
  pub waiting : (f : ℕ) → Waiting.contains f w.waiting ≡ state_eq (w.state f) State.waiting

-- At every point of every allowed run at which the thread has not finished, the books are right, or the
-- main fiber is on its way out: the worker was told to shut down, nothing is queued, no fiber is blocked,
-- and the mutex is not released any more.
pub Reached-Books :
    {m : Mode} {id : ℕ} {acts : List Action} {w : Worker}
    → Reached m id acts w
    → w.pc ≢ finished
    → Books w ⊎ Ending w
Reached-Books r _ = elim (Reached-Good r) [
  | inl inv ↦
      let c = inv.core in
      inl (record {
        num = c.num_sync;
        queue = λ f. (c.each f).in_queue;
        idle = λ f. (c.each f).in_set;
        waiting = λ f. (c.each f).in_waiting;
      })
  | inr ending ↦ inr ending
]

other_not_running : (s : State) (r : Resume) → fits false true s r ≡ true → s ≢ State.running
other_not_running s active h e = cc
other_not_running s (in_suspend k) h e = ground arith
other_not_running s in_idle h e = ground arith

-- At every point of every allowed run at which the thread has not finished, at most the current fiber is
-- in the state Running, of all fibers that exist, or the main fiber is on its way out: the worker was told to shut down, nothing is queued, no
-- fiber is blocked, and the mutex is not released any more.
pub Reached-one_running :
    {m : Mode} {id : ℕ} {acts : List Action} {w : Worker} (f : ℕ)
    → Reached m id acts w
    → w.pc ≢ finished
    → f ≤ w.worker_fibers
    → w.state f ≡ State.running
    → (f ≡ w.current_fiber) ⊎ Ending w
Reached-one_running {w} f r _ born runs = elim (Reached-Good r) [
  | inl inv ↦ elim (Bool-cases (f == w.current_fiber)) [
    | inl same ↦ inl (ground (arith, same))
    | inr other ↦ absurd (
        other_not_running (w.state f) (w.resume f) (ground (arith, other, born, inv.core.each f))
          runs)
  ]
  | inr ending ↦ inr ending
]

-- After every allowed run, if the worker's thread sleeps on its condition
-- variable, a call that adds a task notifies it, and so does a call of `notify` on a fiber that
-- is yielded or waits with a timeout; that call does not fail.
pub Reached-notifies :
    {m : Mode} {id : ℕ} {acts : List Action} {w : Worker} (c : Caller) (limit : Option ℕ)
    → Reached m id acts w
    → w.pc ≡ sleeping c limit
    → ((t : Task Job) → (enqueue_task t w).1 ≡ true)
      × ((f : ℕ)
          → (state_eq (w.state f) State.yielded || state_eq (w.state f) State.waiting) ≡ true
          → (v : Worker) × (enqueue_fiber f w ≡ ok (v, true)))
unfolding enqueue_task
Reached-notifies {w} c limit r e =
    let inv = Reached-Inv r (rw e) in
    let alert : w.notify_added ≡ true = (subst (λ p. Phase p w) e inv.phase).1 in
    (
      λ t. alert,
      λ f h. let (v, called) = enqueue_fiber_asleep f w inv.core h in (v, cc (called, alert)),
    )

-- A fiber that is idle must not be notified: the call itself succeeds, but if nothing else is
-- queued, the next round of `runUntilIdle` fails an assertion.
pub notify_idle_aborts :
    (w : Worker) (f : ℕ)
    → Inv w
    → w.state f ≡ State.idle
    → w.fibers ≡ []
    → (v : Worker × Bool) × (enqueue_fiber f w ≡ ok v) × (run_until_idle v.0 ≡ abort)
unfolding enqueue_fiber enqueue_in push_fiber set_fiber_state run_until_idle run_fibers
notify_idle_aborts w f inv rests alone =
    let free : Waiting.contains f w.waiting ≡ false = ground (arith, inv.core.each f) in
    let asleep : (count f w.idle_fibers == 0) ≡ false = ground (arith, inv.core.each f) in
    ((queue_up f w.waiting w, w.notify_added), rw (rests, free), rw (alone, asleep))

steal_first-some :
    (ts : List (Task Job)) (w v : Worker) (t : Task Job)
    → w.tasks ≡ ts
    → steal_first ts w ≡ (v, some t)
    → (is t same_thread ≡ false)
      × (w.tasks ≡ t ∷ v.tasks)
      × (v ≡ record w { tasks = v.tasks; num = w.num - 1 })
unfolding steal_first
steal_first-some [] w v t e h = absurd (cc)
steal_first-some (x ∷ ts) w v t e h = ground arith

-- What `steal` takes is the oldest task, never one that is bound to its thread, and the counter
-- falls by one; nothing else changes.
pub steal-some :
    (locked : Bool) (w v : Worker) (t : Task Job)
    → steal locked w ≡ (v, some t)
    → (locked ≡ true)
      × (is t same_thread ≡ false)
      × (w.tasks ≡ t ∷ v.tasks)
      × (v ≡ record w { tasks = v.tasks; num = w.num - 1 })
unfolding steal
steal-some locked w v t h = elim (Bool-cases ((w.num == 0) || not locked)) [
  | inl no_try ↦ absurd (ground arith)
  | inr tried ↦
      let (a, b, c) = steal_first-some w.tasks w v t refl (ground arith) in (ground arith, a, b, c)
]

pub Good-finished :
    (w : Worker)
    → Good w
    → w.pc ≡ finished
    → (w.shutdown ≡ true) × (w.tasks ≡ []) × (w.fibers ≡ []) × (w.num_blocked_fibers ≡ 0)
Good-finished w g e = elim g [
  | inl inv ↦
      let p : Phase finished w = subst (λ k. Phase k w) e inv.phase in
      (
        p.0,
        nil_of_length w.tasks (omega (arith, inv.core.num_sync, p.1)),
        nil_of_length w.fibers (omega (arith, inv.core.num_sync, p.1)),
        p.2,
      )
  | inr ending ↦ (ending.down, ending.no_tasks, ending.no_fibers, ending.none_blocked)
]
