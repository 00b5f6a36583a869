-- ===== src/Lib.antt =====
-- A verification library for sundries, a collection of small C++ programs and book exercises. The
-- programs do not call one another; each has a module of its own here.
--
-- Gumball: head-first-design-patterns/10.state, a gumball machine by the state pattern. GumballMachine
-- is a record, the State classes are a data type, their virtual methods (insertQuarter, ejectQuarter,
-- turnCrank, dispense, refill) functions by clauses, and the public methods of the machine functions
-- into Option, `none` being a call through a null `_state`. `Run.run` makes a list of calls.
--
-- Messaging: cpp-concurrency-in-action/4.x5.ATM/messaging.hpp. `Dispatch` has the queue, `dispatch`
-- and wait_and_dispatch; `Chain` has the dispatcher objects with their `_chained` flags.
--
-- Atm: cpp-concurrency-in-action/4.x5.ATM/4.x5.ATM.cpp. The three machines (`Machine` is class atm,
-- `Bank` is bank_machine, `Display` is interface_machine) are one record, `System`, with their three
-- queues. Each thread moves by one message at a time; `Run` has the keys of main and runs a schedule,
-- any list of keys and moves. `Induction` is the rule for invariants over all schedules.
--
-- DataQueue: cpp-concurrency-in-action/4.5.threadsafe_queue, the queue (`Queue`) and the two threads that
-- prepare and process its chunks (`Threads`).
--
-- HierarchicalMutex: cpp-concurrency-in-action/3.8.hierarchical_mutex. `Mutex` has the class over
-- numbered threads and mutexes, `Session` clients that unlock in the reverse order of locking.
--
-- LookupTable, ThreadsafeList, ThreadsafeStack, ThreadsafeQueue: the four headers of
-- cpp-concurrency-in-action/6.lock_based. A member function that holds its mutex throughout is one
-- step. The queues' linked nodes stand on an explicit heap, in which a node that was deleted is gone.
--
-- LockFreeStack: cpp-concurrency-in-action/7.lock_free/lock_free_stack.hpp. push, pop and try_reclaim
-- are cut at their accesses to what the threads share (`Memory`, `Threads`); any number of threads take
-- turns, and the allocator may reuse an address. `Weights` and `Invariant` say who holds a node, `Push`,
-- `Pop`, `Reclaim` and `Steps` keep it so, and `Safety`, `Progress` and `Empty` draw the conclusions.
-- `Values`, `Linear`, `History`, `Due`, `Untouched` and `Marked` say at which move an operation takes
-- effect, and what the thread still has to do: this is for `Linearizable`.
--
-- LockFreeStackWithRc: the stack with split reference counts, lock_free_stack_with_rc.hpp beside it, cut
-- in the same way. `Weights` says who refers to a node, `Invariant` balances this with the two counts,
-- `Push`, `Pop`, `Recount`, `Release`, `Delete` and `Steps` keep it so, `Counts` and `Moves` say how
-- far the external counts come, and `Whole` and `Safety` conclude. _head starts as null, in both stacks.
--
-- ThreadPool: class thread_pool of cpp-concurrency-in-action/9.thread_pool/thread_pool.hpp, with any
-- number of threads. `Pool` has submit, run_pending_task and worker_thread; what a task does, also that
-- it submits others or calls run_pending_task, is up to the schedule. Threads outside the pool submit
-- tasks too, and call run_pending_task.
--
-- RemoteControl: the command pattern, head-first-design-patterns/06.command (`Devices`, `Commands`,
-- `Remote`) and 06.command_with_bind (`Bound`). The devices with changing fields stand in a store,
-- a shared_ptr to them is an address, and a null one `none`.
--
-- WeatherStation: the observer pattern, head-first-design-patterns/02.observer. `Displays` has the three
-- display classes, `Subject` WeatherData and the displays that it points to; float is a parameter.
--
-- Parallel: the sums of cpp-concurrency-in-action/8.4.parallel_accumulate (`Threads`) and
-- 8.5.parallel_accumulate (`Async`), 8.7.parallel_for_each (`ForEach`, with the visits of the threads
-- in any order), and parallel_accmulate_using_tp (`Pool`) and the quick sort
-- (`QuickSort`) of 9.thread_pool/thread_pool.hpp. Iterators are positions (`Range`), a future is the
-- value of its task. operator+, operator< and std::partition are parameters.
--
-- Bounds. `unsigned` and `unsigned long` are 32 bits wide and wrap where the source adds to one. The
-- int counts of LockFreeStackWithRc are 32 bits wide: a run ends with `overflows` where an external
-- count passes the greatest int, which is undefined, and with `wraps` where an internal count leaves
-- its range. The other numbers, the ints of DataQueue and WeatherStation among them, are not bounded.
-- Loops are recursions on a list or on the number of their rounds, and a loop that waits is cut into
-- moves of a schedule. On fuel run only the walks of ThreadsafeList, for which one more than the
-- number of nodes is enough, and the recursions of Parallel.Async and Parallel.QuickSort, for which
-- one more than the number of values is.
--
-- Not modelled: asio-examples and asio-tutorial are copies of the example programs of Boost.Asio;
-- couchbase-test, lua-test, python_embed and test-framework try out other libraries; the remaining
-- book exercises are left for later. std::mutex, std::list and the like are modelled by what the
-- standard says of them. Text that is only printed is a constructor for each line.
pub mod Atm
pub mod DataQueue
pub mod Gumball
pub mod HierarchicalMutex
pub mod LockFreeStack
pub mod LockFreeStackWithRc
pub mod LookupTable
pub mod Messaging
pub mod Parallel
pub mod Prelude
pub mod RemoteControl
pub mod ThreadPool
pub mod ThreadsafeList
pub mod ThreadsafeQueue
pub mod ThreadsafeStack
pub mod WeatherStation
