-- ===== src/Gumball.antt =====
-- The gumball machine of head-first-design-patterns/10.state: gumball_machine.h and .cpp, state.h
-- and state.cpp. The class hierarchy under `State` is the data type `State`, a virtual method a
-- function by clauses on it, and a method that mutates the machine returns the new one. A raw or
-- owning pointer is an `Option State`; a call through a null `_state` is `none`. What is written to
-- std::cout is kept as a list of lines, a constructor for each text.
pub mod Machine
pub mod States
pub mod Run
pub mod Invariant
pub mod Ledger
mod Tests
