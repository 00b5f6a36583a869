-- ===== src/LockFreeStackWithRc.antt =====
-- class lock_free_stack_with_rc of 7.lock_free/lock_free_stack_with_rc.hpp.
pub mod Memory
pub mod Threads
pub mod Weights
pub mod Chains
pub mod Counts
pub mod Moves
pub mod Invariant
pub mod Push
pub mod Pop
pub mod Recount
pub mod Release
pub mod Delete
pub mod Steps
pub mod Whole
pub mod Safety
mod Tests
