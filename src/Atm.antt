-- ===== src/Atm.antt =====
-- cpp-concurrency-in-action/4.x5.ATM: an ATM, its bank and its display, three threads that send one
-- another messages, and the main thread that turns keys into messages. 4.x5.ATM.cpp is UTF-16.
pub mod Messages
pub mod System
pub mod Machine
pub mod Bank
pub mod Display
pub mod Run
pub mod Induction
pub mod Books
pub mod Withdrawal
pub mod Pin
mod Tests
