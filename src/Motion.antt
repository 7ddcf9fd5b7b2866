-- ===== src/Motion.antt =====
-- Motion events of the cameras: event/event_bus.rs and motion_event_latch.rs.
pub mod Event
pub mod StateBus
pub mod Latch
mod Tests
