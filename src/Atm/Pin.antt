-- ===== src/Atm/Pin.antt =====
-- What the bank is asked about PINs, over every schedule, and who gets past the PIN.
pub mod Digits
pub mod Guest
pub mod Stale
