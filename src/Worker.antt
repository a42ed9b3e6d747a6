-- ===== src/Worker.antt =====
-- `Scheduler::Worker` of include/marl/scheduler.hpp and src/scheduler.cpp.
pub mod State
pub mod Queues
pub mod Control
pub mod Tasks
pub mod Begins
pub mod Step
pub mod Inv
pub mod Queueing
pub mod Rotation
pub mod Resuming
pub mod Switching
pub mod Waits
pub mod Calls
pub mod Rounds
pub mod Safety
pub mod Reach
pub mod Timeouts
