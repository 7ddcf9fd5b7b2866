-- ===== src/Live.antt =====
-- Live streaming: live/v2.rs.
pub mod Ts
pub mod Publisher
pub mod Playlist
pub mod Stream
mod Tests
