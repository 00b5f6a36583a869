-- ===== src/ThreadPool.antt =====
-- The pools of cpp-concurrency-in-action/9.thread_pool/thread_pool.hpp.
pub mod Pool
pub mod Tasks
pub mod Order
pub mod Stop
mod Tests
