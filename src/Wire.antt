-- ===== src/Wire.antt =====
-- robocam/wire.py: the messages of the protocol.
pub mod Json
pub mod Session
pub mod Results
pub mod Sensors
pub mod Announcements
pub mod Decode
pub mod Messages
mod Tests
