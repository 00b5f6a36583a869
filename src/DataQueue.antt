-- ===== src/DataQueue.antt =====
-- cpp-concurrency-in-action/4.5.threadsafe_queue/4.5.threadsafe_queue.cpp.
pub mod Queue
pub mod Threads
pub mod InTurn
pub mod Ends
mod Tests
