-- ===== src/Seek.antt =====
-- robocam/seek.py: what the server remembers of a run for the search of its target.
pub mod Keyframes
pub mod Memory
pub mod Reach
pub mod Criteria
pub mod Coverage
mod Tests
