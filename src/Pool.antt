-- ===== src/Pool.antt =====
-- The workers of a pool at work together: `Scheduler::enqueue`, `stealWork`, `spinForWork`,
-- `Worker::stop` and the threads of the workers, of src/scheduler.cpp, in any interleaving. The workers
-- of bound threads take part as callers only: nobody steals from them, and they never steal. A call of
-- `enqueue` may come before the thread of a worker has ended or after.
pub mod Sound
pub mod Moves
pub mod Safety
pub mod Amounts
pub mod Balance
pub mod Ledger
pub mod Stage
pub mod Stop
pub mod Hands
pub mod Drain
pub mod Ended
pub mod Teardown
use mini_marl.Base.{
  ℕ, ◌%◌, Bool, true, false, not, ◌&&◌, ◌||◌, List, [], ◌∷◌, ◌++◌, Option, none, some, ltb, ◌==◌,
  if◌then◌else◌, pick, Run, ok, ◌>>=◌,
}
use mini_marl.Task.{Task, none_, same_thread, is}
use mini_marl.Worker.State.{Job, shut_down, user, Pc, in_code, spinning, finished, Worker, update}
use mini_marl.Worker.Queues.{enqueue_fiber, enqueue_task, accept_stolen}
use mini_marl.Worker.Step
use mini_marl.Worker.Step.{Action, notify, spun, wakes, told, is_unlocked}
use mini_marl.Worker.Begins.{is_own, begun}
use mini_marl.Scheduler.{Scheduler, make, next_worker, steal_work, on_begin_spinning}

-- `given` and `started` are histories: the tasks that have been handed over, and those that a worker
-- has called.
pub record Pool : Type 0 where
  pub scheduler : Scheduler
  pub pending : List (Task Job)  -- the tasks of calls of `enqueue` that go round their loop
  pub stolen : ℕ → Option (Task Job)  -- `stolen` in `spinForWork` of a worker
  pub left : ℕ → List (Task Job)  -- what was queued at a worker after its thread had ended
  pub notified : ℕ → Bool  -- a `notify_one` since the thread last woke
  pub given : List (Task Job)
  pub started : List (Task Job)

abbrev pub worker : ℕ → Pool → Worker
worker i p = p.scheduler.worker_threads i

unfoldable pub start_pool : ℕ → Pool
unfolding make
start_pool n = record {
  scheduler = make n;
  pending = [];
  stolen = λ _. none;
  left = λ _. [];
  notified = λ _. false;
  given = [];
  started = [];
}

pub data Event : Type 0 where
  call : Task Job → Event  -- a thread calls `enqueue`
  try_worker : ℕ → Bool → Event  -- a round of the loop of such a call, and whether `tryLock` succeeds
  call_here : ℕ → Task Job → Event  -- code on a worker calls `enqueue` with a task for its thread
  stop : ℕ → Event  -- `Worker::stop` enqueues its lambda
  steal_from : ℕ → ℕ → Bool → Event  -- `stealWork` in `spinForWork`
  accept : ℕ → Event  -- `spinForWork` queues what was stolen
  act : ℕ → Action → Event  -- the thread of a worker goes on, or `Fiber::notify` is called

abbrev pub put_worker : ℕ → Worker → Pool → Pool
put_worker i w p = record p {
  scheduler = record p.scheduler { worker_threads = update p.scheduler.worker_threads i w };
}

-- A task is queued at a worker, which is notified or not.
abbrev pub hand : ℕ → Worker × Bool → Pool → Pool
hand i r p = record (put_worker i r.0 p) { notified = update p.notified i (p.notified i || r.1) }

unfoldable pub call_enqueue : Bool → Task Job → Pool → Pool
call_enqueue true t p = p
call_enqueue false t p = record p { pending = t ∷ p.pending; given = t ∷ p.given }

-- Nobody holds the mutex of a worker whose thread has ended.
abbrev pub is_finished : Pc → Bool
is_finished finished = true
is_finished _ = false

-- A round of the loop of `enqueue`.
unfoldable pub round : Bool → Task Job → List (Task Job) → ℕ × Scheduler → Pool → Pool
unfolding enqueue_task
round locked t rest (id, s) p =
    if locked && is_unlocked (s.worker_threads id).pc
    then hand id (enqueue_task t (s.worker_threads id)) (record p { scheduler = s; pending = rest })
    else if locked && is_finished (s.worker_threads id).pc
    then record p { scheduler = s; pending = rest; left = update p.left id (p.left id ++ t ∷ []) }
    else record p { scheduler = s }

unfoldable pub try_next : Option (Task Job × List (Task Job)) → Bool → Pool → Pool
unfolding round next_worker
try_next none locked p = p
try_next (some (t, rest)) locked p = round locked t rest (next_worker p.scheduler) p

unfoldable pub enqueue_here : Pc → Bool → ℕ → Task Job → Pool → Pool
unfolding enqueue_task
enqueue_here (in_code _) true i t p = record (hand i (enqueue_task t (worker i p)) p) {
  given = t ∷ p.given;
}
enqueue_here _ _ i t p = p

-- The task of `stop`: its flags are `None`.
abbrev pub stop_task : ℕ → Task Job
stop_task id = record { function_ = some (shut_down id); flags_ = none_ }

unfoldable pub stop_worker : Bool → ℕ → Pool → Pool
unfolding enqueue_task
stop_worker true i p = record (hand i (enqueue_task (stop_task i) (worker i p)) p) {
  given = stop_task i ∷ p.given;
}
stop_worker false i p = p

-- `steal` from a worker whose thread has ended.
unfoldable pub steal_left : ℕ → ℕ → List (Task Job) → Pool → Pool
steal_left i victim [] p = p
steal_left i victim (t ∷ ts) p =
    if is t same_thread
    then p
    else record p { stolen = update p.stolen i (some t); left = update p.left victim ts }

unfoldable pub steal_by : Pc → Option (Task Job) → ℕ → ℕ → Bool → Pool → Pool
unfolding steal_work steal_left
steal_by (spinning _) none i from locked p =
    let victim = from % p.scheduler.worker_count in
    let pc = (worker victim p).pc in
    let r = steal_work i from (locked && is_unlocked pc) p.scheduler in
    if locked && is_finished pc
    then steal_left i victim (p.left victim) p
    else record p { scheduler = r.0; stolen = update p.stolen i r.1 }
steal_by _ _ i from locked p = p

unfoldable pub accept_by : Pc → Option (Task Job) → ℕ → Pool → Pool
unfolding accept_stolen
accept_by (spinning _) (some t) i p = record (put_worker i (accept_stolen t (worker i p)) p) {
  stolen = update p.stolen i none;
}
accept_by _ _ i p = p

abbrev pub is_spinning : Pc → Bool
is_spinning (spinning _) = true
is_spinning _ = false

-- `waitForWork` calls `onBeginSpinning` before it releases the mutex.
unfoldable pub begin_spinning : Bool → ℕ → Scheduler → Scheduler
unfolding on_begin_spinning
begin_spinning true i s = on_begin_spinning i s
begin_spinning false i s = s

-- Where a worker calls the lambda of another worker's `stop`, it sets the flag of that worker.
unfoldable pub tell : Option (Task Job) → ℕ → (ℕ → Worker) → ℕ → Worker
tell none i ws = ws
tell (some t) i ws = elim t.function_ [
  | none ↦ ws
  | some (shut_down j) ↦ if j == i then ws else update ws j (record (ws j) { shutdown = true })
  | some (user _) ↦ ws
]

abbrev pub with_task : Option (Task Job) → List (Task Job) → List (Task Job)
with_task none ts = ts
with_task (some t) ts = t ∷ ts

was_called : Run (Worker × Bool) → Bool
was_called (ok r) = r.1
was_called _ = false

-- The pending notification of the worker that an action is about.
unfoldable pub alert : Action → Bool → Worker → Bool
unfolding was_called enqueue_fiber
alert (notify f) b w = b || (is_unlocked w.pc && was_called (enqueue_fiber f w))
alert (wakes clock now) b w = false
alert _ b w = b

-- `spinForWork` returns only once it has queued what was stolen, and `told` is no action of its own.
abbrev pub may_act : Action → Option (Task Job) → Bool
may_act (spun _) (some _) = false
may_act told _ = false
may_act a _ = is_own a

unfoldable pub after_act : ℕ → Action → Worker → Pool → Pool
unfolding tell begin_spinning begun alert
after_act i a v p =
    let w = worker i p in
    let spins = not (is_spinning w.pc) && is_spinning v.pc in
    let ws = tell (begun a w) i (update p.scheduler.worker_threads i v) in
    record p {
      scheduler = record (begin_spinning spins i p.scheduler) { worker_threads = ws };
      notified = update p.notified i (alert a (p.notified i) w);
      started = with_task (begun a w) p.started;
    }

unfoldable pub act_worker : Bool → ℕ → Action → Pool → Run Pool
unfolding after_act
act_worker true i a p = Step.step a (worker i p) >>= λ v. ok (after_act i a v p)
act_worker false i a p = ok p

-- An event that cannot take place changes nothing.
unfoldable pub step_in : Event → Pool → Run Pool
unfolding call_enqueue try_next enqueue_here stop_worker steal_by accept_by act_worker
step_in (call t) p = ok (call_enqueue (is t same_thread) t p)
step_in (try_worker k locked) p = ok (try_next (pick k p.pending) locked p)
step_in (call_here i t) p = ok (enqueue_here (worker i p).pc (is t same_thread) i t p)
step_in (stop i) p = ok (stop_worker (is_unlocked (worker i p).pc) i p)
step_in (steal_from i from locked) p = ok (steal_by (worker i p).pc (p.stolen i) i from locked p)
step_in (accept i) p = ok (accept_by (worker i p).pc (p.stolen i) i p)
step_in (act i a) p = act_worker (may_act a (p.stolen i)) i a p

-- The worker that an event is about is one of the pool.
abbrev pub is_there : Event → ℕ → Bool
is_there (call _) n = true
is_there (try_worker _ _) n = true
is_there (call_here i _) n = ltb i n
is_there (stop i) n = ltb i n
is_there (steal_from i _ _) n = ltb i n
is_there (accept i) n = ltb i n
is_there (act i _) n = ltb i n

unfoldable pub step : Event → Pool → Run Pool
unfolding step_in
step e p = if is_there e p.scheduler.worker_count then step_in e p else ok p

unfoldable pub run_events : List Event → Pool → Run Pool
unfolding step
run_events [] p = ok p
run_events (e ∷ es) p = step e p >>= run_events es
