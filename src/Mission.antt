-- ===== src/Mission.antt =====
-- robocam/mission.py: what the server makes of the robot's exits.
pub mod Ranking
mod Tests
