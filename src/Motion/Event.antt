-- ===== src/Motion/Event.antt =====
-- The data of sentinel_rtp_cam/src/event/event_bus.rs. Times are nanoseconds.
use sentinel_video_receiver.Prelude.{ℕ, Bool, List, Text}

pub record MotionEvent : Type 0 where
  pub rule : Text
  pub active : Bool
  pub ts : ℕ
  pub camera_id : Text
  pub event_id : Text

pub record MotionMetadata : Type 0 where
  pub camera_id : Text
  pub event_id : Text

abbrev pub MotionState : Type 0
MotionState = List (Text × MotionMetadata)
