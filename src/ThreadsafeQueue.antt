-- ===== src/ThreadsafeQueue.antt =====
-- cpp-concurrency-in-action/6.lock_based/threadsafe_queue.hpp: five queues over linked nodes or a
-- std::queue.
pub mod Heap
pub mod Dummy
pub mod Fifo
pub mod Threads
pub mod Order
pub mod Simple
pub mod Old
mod Tests
