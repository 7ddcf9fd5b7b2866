-- ===== src/Motion/Latch.antt =====
-- `MotionEventIdLatch` of sentinel_rtp_cam/src/motion_event_latch.rs. The keys are camera and rule.
-- `grace_window` is not negative, and a time is a number of nanoseconds.
pub mod Period
use sentinel_video_receiver.Prelude.{
  ℕ, ◌-◌, Bool, true, false, ◌&&◌, Option, none, some, List, [], leb, if◌then◌else◌, Text, pair_key,
  get, insert, remove,
}
use sentinel_video_receiver.Motion.Event.{MotionEvent}

pub record EndedMotion : Type 0 where
  pub event_id : Text
  pub ended_at : ℕ

abbrev pub LatchKey : Type 0
LatchKey = Text × Text

pub record MotionEventIdLatch : Type 0 where
  pub active : List (LatchKey × Text)
  pub ended : List (LatchKey × EndedMotion)
  pub grace_window : ℕ

unfoldable pub new_with_grace : ℕ → MotionEventIdLatch
new_with_grace grace_window = record { active = []; ended = []; grace_window = grace_window }

unfoldable pub new : MotionEventIdLatch
unfolding new_with_grace
new = new_with_grace 0

abbrev pub key_of : MotionEvent → LatchKey
key_of event = (event.camera_id, event.rule)

-- `delta >= 0 && delta <= grace_window`, for `delta = ts - ended_at`.
abbrev pub in_grace : ℕ → ℕ → ℕ → Bool
in_grace grace_window ended_at ts = leb ended_at ts && leb (ts - ended_at) grace_window

-- The event id of a start that finds no latched one.
unfoldable pub fresh_id : MotionEventIdLatch → MotionEvent → Option EndedMotion → Text
fresh_id latch event none = event.event_id
fresh_id latch event (some ended) =
    if in_grace latch.grace_window ended.ended_at event.ts then ended.event_id else event.event_id

unfoldable pub normalize_start :
    MotionEventIdLatch → MotionEvent → Option Text → MotionEventIdLatch × MotionEvent
unfolding fresh_id
normalize_start latch event (some existing) = (latch, record event { event_id = existing })
normalize_start latch event none =
    let key = key_of event in
    let event_id = fresh_id latch event (get key latch.ended) in
    (
      record latch { active = insert key event_id latch.active; ended = remove key latch.ended },
      record event { event_id = event_id },
    )

abbrev pub end_id : MotionEvent → Option Text → Text
end_id event none = event.event_id
end_id event (some existing) = existing

unfoldable pub normalize_end : MotionEventIdLatch → MotionEvent → MotionEventIdLatch × MotionEvent
normalize_end latch event =
    let key = key_of event in
    let event_id = end_id event (get key latch.active) in
    (
      record latch {
        active = remove key latch.active;
        ended = insert key (record { event_id = event_id; ended_at = event.ts }) latch.ended;
      },
      record event { event_id = event_id },
    )

unfoldable pub normalize : MotionEventIdLatch → MotionEvent → MotionEventIdLatch × MotionEvent
unfolding normalize_start normalize_end
normalize latch event =
    if event.active
    then normalize_start latch event (get (key_of event) latch.active)
    else normalize_end latch event
