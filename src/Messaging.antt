-- ===== src/Messaging.antt =====
-- cpp-concurrency-in-action/4.x5.ATM/messaging.hpp: the message queue, and the chains of dispatchers
-- that wait for a message. A message type of a program is one data type; `std::queue` is a list,
-- front first; a handler for messages of type Msg is a function that answers `none` where the
-- dynamic_cast to wrapped_message<Msg> fails.
pub mod Dispatch
pub mod Chain
pub mod Laws
mod Tests
