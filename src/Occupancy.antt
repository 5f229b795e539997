-- ===== src/Occupancy.antt =====
-- robocam/occupancy.py: the occupancy grid and what is done with it.
pub mod Array
pub mod Grid
pub mod Patch
pub mod Codec
pub mod Decode
mod Tests
