-- ===== src/Processors.antt =====
-- robocam/processors: what is done with a frame.
pub mod Decision
pub mod Deep3r
mod Tests
