-- ===== src/ThreadsafeList.antt =====
-- cpp-concurrency-in-action/6.lock_based/threadsafe_list.hpp: a singly linked list whose nodes are
-- locked hand over hand.
pub mod Nodes
pub mod Walks
pub mod Remove
mod Tests
