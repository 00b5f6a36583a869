-- ===== src/Parallel.antt =====
-- The parallel algorithms: parallel_accumulate of three programs, parallel_for_each, and the quick
-- sort on the pool.
pub mod Range
pub mod Accumulate
pub mod Threads
pub mod Pool
pub mod Async
pub mod ForEach
pub mod QuickSort
mod Tests
