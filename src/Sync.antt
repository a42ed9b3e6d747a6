-- ===== src/Sync.antt =====
-- The synchronisation primitives: include/marl/condition_variable.hpp, wait_group.hpp and event.hpp.
pub mod Condition
pub mod WaitGroup
pub mod Event
