-- ===== src/WeatherStation.antt =====
-- The observer pattern, head-first-design-patterns/02.observer/02.observer.cpp.
pub mod Displays
pub mod Subject
pub mod Notified
pub mod Extremes
mod Tests
