-- ===== src/Regions.antt =====
-- robocam/regions.py: from the cells of a comparison to the regions that a robot can go to.
pub mod Components
mod Tests
