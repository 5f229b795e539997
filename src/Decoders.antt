-- ===== src/Decoders.antt =====
-- robocam/lidar.py and robocam/imu.py: from a header and its payload to a reading. A byte is a number
-- under 256, and `np.frombuffer` gives words of some bytes, the low byte first.
pub mod Words
pub mod Scans
pub mod Bursts
mod Tests
