-- ===== src/HierarchicalMutex.antt =====
-- cpp-concurrency-in-action/3.8.hierarchical_mutex/3.8.hierarchical_mutex.cpp: a mutex that refuses
-- to be locked out of order.
pub mod Mutex
pub mod Session
pub mod Order
pub mod Deadlock
pub mod Misuse
mod Tests
