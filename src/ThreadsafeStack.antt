-- ===== src/ThreadsafeStack.antt =====
-- class threadsafe_stack of 6.lock_based/threadsafe_stack.hpp.
pub mod Stack
pub mod Order
mod Tests
