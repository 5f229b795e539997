-- ===== src/Pipeline.antt =====
-- robocam/pipeline.py: the bounded frame queue, the worker pool behind it, and the two together.
pub mod FrameQueue
pub mod Workers
mod Tests
