-- ===== src/Clip.antt =====
-- Clip recording: core/clip_writer.rs and core/clip_recorder.rs.
pub mod Files
pub mod Memory
pub mod Paths
pub mod Writer
pub mod Recorder
pub mod Disk
mod Tests
