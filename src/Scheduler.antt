-- ===== src/Scheduler.antt =====
-- `Scheduler` of include/marl/scheduler.hpp and src/scheduler.cpp, over the workers of `Worker`.
pub mod Laws
pub mod Config
use mini_marl.Base.{
  ℕ, ◌+◌, ◌-◌, ◌*◌, ◌%◌, ◌≤◌, ◌<◌, ◌≡◌, Bool, true, false, not, List, [], ◌∷◌, Option, none, some,
  ltb, ◌==◌, if◌then◌else◌, Run, ok, abort, undefined, out_of_fuel, ◌>>=◌, ◌>>◌, marl_assert,
}
use mini_marl.Task.{Task, same_thread, is}
use mini_marl.Worker.State.{Mode, multi_threaded, single_threaded, Job, Worker, start, update}
use mini_marl.Worker.Queues.{enqueue_task, steal}

abbrev pub unsigned_mod : ℕ
unsigned_mod = 4294967296

-- `spinning_workers_.size()`
abbrev pub num_spinning : ℕ
num_spinning = 8

-- -1 in `spinning_workers` is `none`. The single threaded workers stand by the id of their thread.
pub record Scheduler : Type 0 where
  pub worker_count : ℕ
  pub spinning_workers : ℕ → Option ℕ
  pub next_spinning_worker_index : ℕ
  pub next_enqueue_index : ℕ
  pub worker_threads : ℕ → Worker
  pub by_tid : ℕ → Option Worker

-- The constructor
unfoldable pub make : ℕ → Scheduler
unfolding start
make count = record {
  worker_count = count;
  spinning_workers = λ _. none;
  next_spinning_worker_index = 134217728;
  next_enqueue_index = 0;
  worker_threads = λ i. start multi_threaded i;
  by_tid = λ _. none;
}

-- The thread that calls: that of a worker of the pool, or any other.
pub data Caller : Type 0 where
  pool : ℕ → Caller
  thread : ℕ → Caller

-- `Worker::getCurrent()`
unfoldable pub get_current : Caller → Scheduler → Option Worker
get_current (pool i) s = some (s.worker_threads i)
get_current (thread tid) s = s.by_tid tid

abbrev pub put_current : Caller → Worker → Scheduler → Scheduler
put_current (pool i) w s = record s { worker_threads = update s.worker_threads i w }
put_current (thread tid) w s = record s { by_tid = update s.by_tid tid (some w) }

-- `worker->enqueue(std::move(task))` on the worker of the caller; the result says whether the worker
-- is notified.
unfoldable pub enqueue_current :
    Run (Scheduler × Bool) → Caller → Task Job → Scheduler → Run (Scheduler × Bool)
unfolding get_current enqueue_task
enqueue_current otherwise c t s = elim (get_current c s) [
  | none ↦ otherwise
  | some w ↦ let r = enqueue_task t w in ok (put_current c r.0 s, r.1)
]

-- The worker that a round of `enqueue` tries.
unfoldable pub choose : Option ℕ → Scheduler → ℕ × Scheduler
choose (some id) s = (id, s)
choose none s = (
  s.next_enqueue_index % s.worker_count,
  record s { next_enqueue_index = (s.next_enqueue_index + 1) % unsigned_mod },
)

unfoldable pub next_worker : Scheduler → ℕ × Scheduler
unfolding choose
next_worker s =
    let index = (s.next_spinning_worker_index + (unsigned_mod - 1)) % unsigned_mod in
    let i = index % num_spinning in
    choose (s.spinning_workers i) (record s {
      next_spinning_worker_index = index;
      spinning_workers = update s.spinning_workers i none;
    })

-- The loop of `enqueue`, given whether each `tryLock` succeeds.
unfoldable pub enqueue_any : List Bool → Task Job → Scheduler → Run (Scheduler × Bool)
unfolding next_worker enqueue_task
enqueue_any [] t s = out_of_fuel
enqueue_any (locked ∷ locks) t s =
    let (id, s1) = next_worker s in
    let r = enqueue_task t (s1.worker_threads id) in
    let rest = enqueue_any locks t s1 in
    if locked
    then ok (record s1 { worker_threads = update s1.worker_threads id r.0 }, r.1)
    else rest

unfoldable pub enqueue : List Bool → Caller → Task Job → Scheduler → Run (Scheduler × Bool)
unfolding enqueue_current enqueue_any is
enqueue locks c t s =
    if is t same_thread
    then enqueue_current undefined c t s
    else if ltb 0 s.worker_count
    then enqueue_any locks t s
    else enqueue_current abort c t s

-- `stealWork`, with whether the `try_lock` of `steal` succeeds.
unfoldable pub steal_work : ℕ → ℕ → Bool → Scheduler → Scheduler × Option (Task Job)
unfolding steal
steal_work thief from locked s =
    let victim = from % s.worker_count in
    let r = steal locked (s.worker_threads victim) in
    if not (ltb 0 s.worker_count)
    then (s, none)
    else if victim == thief
    then (s, none)
    else (record s { worker_threads = update s.worker_threads victim r.0 }, r.1)

unfoldable pub on_begin_spinning : ℕ → Scheduler → Scheduler
on_begin_spinning worker_id s = record s {
  spinning_workers =
      update s.spinning_workers (s.next_spinning_worker_index % num_spinning) (some worker_id);
  next_spinning_worker_index = (s.next_spinning_worker_index + 1) % unsigned_mod;
}
