-- ===== src/Worker/State.antt =====
-- The state of a worker and of its fibers. A `Fiber *` is a number: 0 is the main fiber, and
-- k + 1 is `worker_fibers_[k]`. Counters of type uint64_t are numbers: they count objects that
-- exist in memory.
use mini_marl.Base.{
  ℕ, Bool, true, false, List, [], ◌==◌, if◌then◌else◌, Run, ok, ◌>>◌, marl_assert, Option,
}
use mini_marl.Task.{Task}
use mini_marl.Waiting.{WaitingFibers, no_waiting}

-- `Worker::Mode`
pub data Mode : Type 0 where
  multi_threaded single_threaded : Mode

-- `Fiber::State`
pub data State : Type 0 where
  idle yielded waiting queued running : State

abbrev pub state_eq : State → State → Bool
state_eq State.idle State.idle = true
state_eq State.yielded State.yielded = true
state_eq State.waiting State.waiting = true
state_eq State.queued State.queued = true
state_eq State.running State.running = true
state_eq _ _ = false

-- What a task runs: the lambda of `Worker::stop` of the worker with this `id_`, or code of the user.
pub data Job : Type 0 where
  shut_down : ℕ → Job
  user : ℕ → Job

-- Whose code a fiber runs outside the scheduler: a task that `runUntilIdle` called, or the thread
-- that is bound to a single threaded worker.
pub data Code : Type 0 where
  task bound : Code

-- Where a fiber goes on once it is switched to. `active` stands for the fiber that runs, and for
-- one that has not started.
pub data Resume : Type 0 where
  active : Resume
  in_suspend : Code → Resume  -- behind a `switchToFiber` of `suspend`
  in_idle : Resume  -- behind the `switchToFiber` of `runUntilIdle`

-- The callers of `Work::wait`.
pub data Caller : Type 0 where
  from_run : Caller
  from_loop : Caller  -- `waitForWork` in `runUntilShutdown`
  from_suspend : Code → Caller  -- `waitForWork` in `suspend`

-- Where the thread of the worker stands. The mutex of `work_` is free in the first three.
pub data Pc : Type 0 where
  in_code : Code → Pc
  spinning : Caller → Pc  -- `spinForWork`
  sleeping : Caller → Option ℕ → Pc  -- blocked on `work_.added`, until the deadline if there is one
  before_run : Pc  -- the thread of a multi threaded worker has not taken the mutex yet
  starting : Pc  -- head of `run`
  until_shutdown : Pc  -- loop head of `runUntilShutdown`
  until_idle : Pc  -- loop head of `runUntilIdle`
  awake : Code → Pc  -- `suspend` behind `waitForWork`
  returning : Pc  -- the last switch of `run`
  finished : Pc

pub record Worker : Type 0 where
  pub id_ : ℕ
  pub mode : Mode
  pub num : ℕ
  pub num_blocked_fibers : ℕ
  pub tasks : List (Task Job)
  pub fibers : List ℕ
  pub waiting : WaitingFibers
  pub notify_added : Bool
  pub current_fiber : ℕ
  pub idle_fibers : List ℕ
  pub worker_fibers : ℕ  -- the length of the vector
  pub shutdown : Bool
  pub state : ℕ → State  -- `fiber->state_`
  pub resume : ℕ → Resume
  pub pc : Pc

abbrev pub main_fiber : ℕ
main_fiber = 0

abbrev pub update {ℓ} : {A : Type ℓ} → (ℕ → A) → ℕ → A → ℕ → A
update f i a j = if i == j then a else f j

-- The constructor, and `start`: the thread of a multi threaded worker is about to take the
-- mutex and to enter `run`, and a single
-- threaded worker leaves the thread to its own code.
unfoldable pub start : Mode → ℕ → Worker
start m id = record {
  id_ = id;
  mode = m;
  num = 0;
  num_blocked_fibers = 0;
  tasks = [];
  fibers = [];
  waiting = no_waiting;
  notify_added = true;
  current_fiber = main_fiber;
  idle_fibers = [];
  worker_fibers = 0;
  shutdown = false;
  state = λ _. State.running;
  resume = λ _. active;
  pc = elim m [ multi_threaded ↦ before_run | single_threaded ↦ in_code bound ];
}

unfoldable pub set_fiber_state : ℕ → State → Worker → Worker
set_fiber_state f to w = record w { state = update w.state f to }

unfoldable pub change_fiber_state : ℕ → State → State → Worker → Run Worker
unfolding set_fiber_state
change_fiber_state f from to w = do
  marl_assert (state_eq (w.state f) from)
  ok (set_fiber_state f to w)
