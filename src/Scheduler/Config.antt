-- ===== src/Scheduler/Config.antt =====
-- `Scheduler::Config` of include/marl/scheduler.hpp, and the constructor of `Scheduler` in
-- src/scheduler.cpp. The array of workers has a fixed size.
pub mod Limit
use mini_marl.Base.{
  ℕ, zero, suc, ◌-◌, ◌%◌, ◌^◌, Bool, true, false, not, ◌&&◌, List, Option, none, some, ltb,
  if◌then◌else◌, Run, ok, undefined, ◌>>=◌,
}
use mini_marl.Affinity.{any_of, all}
use mini_marl.Worker.State.{Worker, multi_threaded, start, update}

-- An int
pub data ℤ : Type 0 where
  pos : ℕ → ℤ
  negsuc : ℕ → ℤ  -- -1 - n

-- `get` of a policy, on the id of a thread
abbrev pub Policy : Type 0
Policy = ℕ → Run (List ℕ)

-- A function is known by a number, and the allocator by its address.
pub record Config : Type 0 where
  pub count : ℤ
  pub initializer : Option ℕ
  pub affinity_policy : Option Policy
  pub allocator : ℕ
  pub fiber_stack_size : ℕ

-- A default `Config`, given the address of `Allocator::Default`.
abbrev pub default_config : ℕ → Config
default_config default_allocator = record {
  count = pos 0;
  initializer = none;
  affinity_policy = none;
  allocator = default_allocator;
  fiber_stack_size = 1048576;
}

abbrev pub set_allocator : ℕ → Config → Config
set_allocator alloc c = record c { allocator = alloc }

abbrev pub set_fiber_stack_size : ℕ → Config → Config
set_fiber_stack_size size c = record c { fiber_stack_size = size }

abbrev pub set_worker_thread_count : ℤ → Config → Config
set_worker_thread_count n c = record c { count = n }

abbrev pub set_worker_thread_initializer : Option ℕ → Config → Config
set_worker_thread_initializer f c = record c { initializer = f }

abbrev pub set_worker_thread_affinity_policy : Option Policy → Config → Config
set_worker_thread_affinity_policy policy c = record c { affinity_policy = policy }

-- An unsigned int as an int.
unfoldable pub to_int : ℕ → ℤ
to_int u = if ltb u (2 ^ 31) then pos u else negsuc (2 ^ 32 - 1 - u)

-- `numLogicalCPUs`, where `sysconf` returns so many CPUs or -1.
unfoldable pub num_logical_cpus : Option ℕ → ℕ
num_logical_cpus none = 2 ^ 32 - 1
num_logical_cpus (some n) = n % 2 ^ 32

unfoldable pub all_cores : ℕ → Option ℕ → Config
unfolding to_int num_logical_cpus
all_cores default_allocator cpus =
    set_worker_thread_count (to_int (num_logical_cpus cpus)) (default_config default_allocator)

-- The rounds of a loop from 0 up to an int.
abbrev pub rounds : ℤ → ℕ
rounds (pos n) = n
rounds (negsuc _) = 0

has_policy : Option Policy → Bool
has_policy none = false
has_policy (some _) = true

-- `setConfigDefaults`, where the affinity of the thread has so many CPUs, or cannot be read.
unfoldable pub set_config_defaults : Option ℕ → Config → Config
unfolding any_of all has_policy
set_config_defaults cpus c =
    if ltb 0 (rounds c.count) && not (has_policy c.affinity_policy)
    then record c { affinity_policy = some (λ thread_id. ok (any_of (all cpus) thread_id)) }
    else c

abbrev pub max_worker_threads : ℕ
max_worker_threads = 256

-- The first loop of the constructor, which has so many rounds left: a worker is created and written to
-- the array. A worker that has only been constructed has the state that `start` gives it before its
-- thread begins.
unfoldable pub create_workers : ℕ → ℕ → (ℕ → Option Worker) → Run (ℕ → Option Worker)
unfolding start
create_workers zero i ws = ok ws
create_workers (suc n) i ws =
    let rest = create_workers n (suc i) (update ws i (some (start multi_threaded i))) in
    if ltb i max_worker_threads then rest else undefined

-- `affinity_policy->get(id_, allocator)` in `Worker::start`.
unfoldable pub get_affinity : Option Policy → ℕ → Run (List ℕ)
get_affinity none i = undefined
get_affinity (some policy) i = policy i

-- The second loop: the worker of each round starts its thread.
unfoldable pub start_workers : Option Policy → ℕ → ℕ → Run (List ℕ)
unfolding get_affinity
start_workers policy zero i = ok List.[]
start_workers policy (suc n) i =
    get_affinity policy i >>= λ affinity. start_workers policy n (suc i)

-- The configuration and the array of workers that the constructor leaves.
unfoldable pub construct : Option ℕ → Config → Run (Config × (ℕ → Option Worker))
unfolding set_config_defaults create_workers start_workers
construct cpus config = do
  let cfg = set_config_defaults cpus config
  ws ← create_workers (rounds cfg.count) 0 (λ _. none)
  _ ← start_workers cfg.affinity_policy (rounds cfg.count) 0
  ok (cfg, ws)
