-- ===== src/LookupTable.antt =====
-- cpp-concurrency-in-action/6.lock_based/threadsafe_lookup_table.hpp: a hash table of buckets. Each
-- member function holds its bucket's lock throughout, so it is one step. Key's operator== and the
-- hasher are parameters: the hasher is any function, and == decides equality.
pub mod Bucket
pub mod Table
pub mod Keys
pub mod Refinement
pub mod Run
mod Tests
