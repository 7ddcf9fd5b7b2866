-- ===== src/Server.antt =====
-- The ingest server of sentinel_rtp_cam: one stream's pipeline and its health.
pub mod Health
pub mod Stream
pub mod Ingest
mod Tests
