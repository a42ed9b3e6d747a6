-- ===== src/Memory.antt =====
-- include/marl/memory.hpp and src/memory.cpp: the allocators. Addresses and sizes are numbers below
-- 2^64. The C library's `malloc` and the kernel's `mmap` are parameters that choose an address; what
-- the program gives back to them is recorded in the order of the calls.
pub mod Align
pub mod Interface
pub mod Default
pub mod Blocks
pub mod Objects
pub mod Stl
pub mod Tracked
