-- ===== src/LockFreeStack.antt =====
-- class lock_free_stack of 7.lock_free/lock_free_stack.hpp.
pub mod Memory
pub mod Threads
pub mod Weights
pub mod Chains
pub mod Invariant
pub mod Found
pub mod Pop
pub mod Reclaim
pub mod Push
pub mod Steps
pub mod Safety
pub mod Values
pub mod Linear
pub mod History
pub mod Due
pub mod Untouched
pub mod Marked
pub mod Linearizable
pub mod Progress
pub mod Empty
mod Tests
