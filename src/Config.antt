-- ===== src/Config.antt =====
-- robocam/config.py: the server's configuration, its checks and its loading from a mapping.
pub mod Sections
pub mod Checks
pub mod Load
pub mod Accepted
mod Tests
