-- ===== src/Lib.antt =====
-- miniMarl, a task scheduler of worker threads and fibers in C++.
--
-- A `Scheduler` owns a pool of workers, and one worker for each thread that binds to it. A `Worker` runs
-- tasks on fibers of its own: a task that waits suspends its fiber, and the thread goes on with another.
-- Workers sleep when they have nothing to do, are notified by those who add work, and steal tasks of one
-- another. The primitives for tasks (`ConditionVariable`, `WaitGroup`, `Event`) suspend fibers and notify
-- them. Everything takes its memory from an `Allocator`, and uses containers of its own.
--
-- Files, and the code they are about:
--
--   Task              include/marl/task.hpp
--   Waiting           `Scheduler::WaitingFibers` of include/marl/scheduler.hpp and src/scheduler.cpp: a
--                     map and an ordered set, both lists here. Waiting/Sync says that they agree, and
--                     Waiting/Laws what each operation does to them.
--   Worker            `Scheduler::Worker`. State has its members; Queues the calls that other threads
--                     make too; Control what the thread does under `work_.mutex`; Step one step between
--                     two moments at which the mutex is free, and runs of steps. Inv states the
--                     invariant; Queueing, Rotation, Resuming, Switching and Waits show that the parts keep
--                     it; Calls, Rounds and Safety that runs do; Reach and Timeouts what follows.
--                     Tasks and Begins say which task an action begins.
--   Scheduler         `Scheduler` of the same files: where a task goes, and from where one is stolen.
--                     Config is its configuration and the constructor, Config/Limit how many workers it
--                     can make.
--   Pool              the workers of a scheduler together, in src/scheduler.cpp: a state of all of them,
--                     and events of any of them. Sound, Moves and Safety keep the invariants of the
--                     workers; Amounts, Balance and Ledger count the tasks, with Hands and Drain for a
--                     pool that has finished; Ended says that a thread that has ended stays so; Teardown
--                     is the destructor of the scheduler; Stage and Stop follow a stolen stop.
--   Sync              include/marl/condition_variable.hpp, wait_group.hpp and event.hpp.
--   Memory            include/marl/memory.hpp and src/memory.cpp: the allocator over malloc and mmap
--                     (Default, Blocks), objects (Objects), the allocator of standard containers
--                     (Stl), statistics (Tracked).
--   Vector            `containers::vector` of include/marl/containers.hpp, over memory cells.
--   Linked            `containers::list` of the same file: entries with pointers. Seg, Chains, Unlink,
--                     Link and Move are about chains of entries, Holds says which elements a list has,
--                     and Grow, Laws, Destroy and Iterate what the operations do.
--   Threads           `Thread` of the files thread: who owns the system's threads (Owner), and what the
--                     actions of a program do to them (Laws).
--   OsFiber           src/osfiber_asm.hpp and src/arch/osfiber_asm_x64.S, osfiber_asm_x64.h and
--                     osfiber_x64.c: the switch of stacks (Resume) and the life of a fiber (Create).
--   Parallel          include/marl/parallelize.hpp.
--   Finally           include/marl/finally.hpp.
--   Affinity          `Thread::Affinity` of src/thread.cpp.
--   Dag               the builder and the counters of include/marl/dag.hpp. Exec is `run` and `invoke`;
--                     `initCounters` is a copy. Graph counts the edges before a run; Build and Assign
--                     say what the builder makes; Inv and Steps are the invariant of a run; Order and
--                     Progress what follows.
--   Base              lists, tests and the outcome `Run` that the models share.
--   Tests             runs at concrete inputs.
--
-- Conventions. Code that can fail an assertion, or whose behaviour can be undefined, gives a `Run`: `ok`,
-- `abort` (MARL_ASSERT, MARL_FATAL), `undefined` or `out_of_fuel`. Assertions are enabled. An unsigned int
-- wraps at 2 ^ 32 where the code computes with it; the counters of workers, vectors and statistics
-- count things that exist and are numbers, and so are the sizes that a vector asks for; those of the
-- allocators are size_t. A section under a mutex is one step of a model. In WaitGroup, Parallel and Dag an
-- access to an atomic counter outside of it is a step of its own; a round of `enqueue` over the
-- workers, `stealWork`, `onBeginSpinning`, and the counters of ConditionVariable with the list that they
-- belong to are one step each.
--
-- Fuel. The loop of the destructor of `list` takes one round for each element, and so does one over its
-- iterators. The loop of `enqueueFiberTimeouts` takes one round for each entry. `Event::signal` nests at most
-- once for each event, since the events that depend on one were made after it. The loop of
-- `Scheduler::enqueue` consumes the outcomes of `tryLock`, and ends with the first that succeeds. The
-- loop of `Affinity::remove` runs at most once for each core.
--
-- Outside of the model: what tasks compute, the registers that the switch of stacks does not name, the
-- system's threads, mutexes and condition variables, `malloc` and `mmap` (a parameter, with what it
-- returns as hypotheses), and `std::sort` (a parameter that permutes). Not modelled: tracing, the
-- switch of stacks by ucontext, and `bind`, `unbind` and `blocking_call`.
--
-- A call on a worker whose thread has ended changes nothing in Worker/Step, so that what is said of one
-- worker is about the time before; Pool keeps the tasks of such calls in `left`.
pub mod Base
pub mod Task
pub mod Waiting
pub mod Worker
pub mod Linked
pub mod Memory
pub mod Vector
pub mod Tests
pub mod Sync
pub mod Scheduler
pub mod Pool
pub mod Affinity
pub mod Dag
pub mod Parallel
pub mod Finally
pub mod Threads
pub mod OsFiber
