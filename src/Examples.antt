-- ===== src/Examples.antt =====
-- nrf52/examples: whole programs. A line that a program prints is a constructor, and the endless
-- loop on a breakpoint in which a main future ends is its return.
pub mod Console
pub mod Sensor
pub mod Utf8
pub mod Locking
pub mod Messages
pub mod Sharing
pub mod Yielding
pub mod Heartbeat
pub mod Echo
pub mod Clock
mod Tests
