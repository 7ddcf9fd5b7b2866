-- ===== src/H264.antt =====
-- The H.264 path of the camera agent: core/video.rs, core/h264_depacketize.rs, core/h264_sync.rs.
pub mod Nal
pub mod Depacketizer
pub mod SyncGate
mod Tests
