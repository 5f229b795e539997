-- ===== src/Client.antt =====
-- link/robocam_client.py: the robot's side of the link.
pub mod State
pub mod Send
pub mod Receive
pub mod Feeds
pub mod Run
pub mod Maps
mod Tests
