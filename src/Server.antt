-- ===== src/Server.antt =====
-- robocam/server.py: the server's side of the link.
pub mod Results
pub mod Session
pub mod Streams
pub mod Maps
pub mod Announce
pub mod Frames
pub mod Sessions
pub mod Dispatch
mod Tests
