-- ===== src/RemoteControl.antt =====
-- The command pattern: head-first-design-patterns/06.command and 06.command_with_bind.
pub mod Devices
pub mod Commands
pub mod Remote
pub mod Bound
pub mod Agree
pub mod Buttons
mod Tests
