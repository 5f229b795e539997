-- ===== src/Sensors.antt =====
-- The sensors' side of link/robocam_client.py: serial framing of the scanner and of the OpenCR board.
pub mod Crc
pub mod Framing
pub mod Lidar
pub mod OpenCr
mod Tests
