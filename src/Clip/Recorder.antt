-- ===== src/Clip/Recorder.antt =====
-- `ClipRecorder` of sentinel_rtp_cam/src/core/clip_recorder.rs: its data, and the handler of motion
-- states, which touches no file. Instants and durations are nanoseconds of one clock.
pub mod Cleanup
pub mod Stop
pub mod Nal
pub mod Run
use sentinel_video_receiver.Prelude.{
  ℕ, ◌+◌, ◌-◌, ◌*◌, ◌^◌, Bool, true, false, not, ◌&&◌, ◌||◌, Option, none, some, List, [], ◌∷◌, ltb,
  ◌==◌, if◌then◌else◌, is_empty, Bytes, Text, text_lt,
}
use sentinel_video_receiver.Motion.Event.{MotionMetadata, MotionState}
use sentinel_video_receiver.Clip.Writer.{ClipWriter}

pub record ClipMeta : Type 0 where
  pub camera_id : Text
  pub event_id : Text
  pub rule : Text
  pub file_path : Text
  pub file_size : ℕ
  pub started_at : ℕ
  pub ended_at : ℕ

pub record StickyMotion : Type 0 where
  pub rule : Text
  pub camera_id : Text
  pub event_id : Text

pub record ClipRecorderConfig : Type 0 where
  pub output_dir : Text
  pub post_roll : ℕ
  pub min_clip_duration : ℕ
  pub flush_interval : ℕ
  pub stale_part_max_age : ℕ
  pub write_batch_bytes : ℕ
  pub max_files : Option ℕ
  pub max_age_secs : Option ℕ
  pub max_total_bytes : Option ℕ
  pub max_clip_bytes : Option ℕ
  pub max_clip_secs : Option ℕ

pub record Armed : Type 0 where
  pub rule : Text
  pub camera_id : Text
  pub event_id : Text
  pub armed_at : ℕ

pub record Recording : Type 0 where
  pub rule : Text
  pub camera_id : Text
  pub event_id : Text
  pub writer : ClipWriter
  pub stop_at : Option ℕ
  pub hard_stop_at : Option ℕ
  pub started_at : ℕ
  pub started_at_utc : ℕ
  pub file_path : Text

pub data State : Type 0 where
  idle : State
  armed : Armed → State
  recording : Recording → State

-- `clip_meta_tx` is whether there is a channel, with the metadata that was handed to it.
pub record ClipRecorder : Type 0 where
  pub cfg : ClipRecorderConfig
  pub state : State
  pub last_sps : Option Bytes
  pub last_pps : Option Bytes
  pub last_motion_state : MotionState
  pub sticky_motion : Option StickyMotion
  pub clip_meta_tx : Option (List ClipMeta)

unfoldable pub new : ClipRecorderConfig → ClipRecorder
new cfg = record {
  cfg = cfg;
  state = idle;
  last_sps = none;
  last_pps = none;
  last_motion_state = [];
  sticky_motion = none;
  clip_meta_tx = none;
}

abbrev pub seconds : ℕ → ℕ
seconds n = n * 1000000000

abbrev pub is_recording : State → Bool
is_recording idle = false
is_recording (armed a) = false
is_recording (recording r) = true

abbrev min_with : Text → MotionMetadata → Option StickyMotion → Option StickyMotion
min_with rule meta none =
    some (record { rule = rule; camera_id = meta.camera_id; event_id = meta.event_id })
min_with rule meta (some best) =
    if text_lt best.rule rule
    then some best
    else some (record { rule = rule; camera_id = meta.camera_id; event_id = meta.event_id })

-- `state.iter().min_by_key(|(k, _)| *k)`, as the fields that are copied from it. The keys differ, so
-- the order of the entries does not matter.
unfoldable pub min_by_rule : MotionState → Option StickyMotion
min_by_rule [] = none
min_by_rule ((rule, meta) ∷ state) = min_with rule meta (min_by_rule state)

abbrev pub or_min : MotionState → Option StickyMotion → Option StickyMotion
or_min state none = min_by_rule state
or_min state (some sticky) = some sticky

unfoldable pub next_sticky : MotionState → Bool → Option StickyMotion → Option StickyMotion
next_sticky state recording_active sticky =
    if is_empty state && not recording_active
    then none
    else if not (is_empty state)
    then or_min state sticky
    else sticky

-- `State::Armed` from a sticky motion.
abbrev pub arm : Option StickyMotion → ℕ → State → State
arm none now other = other
arm (some sticky) now other = armed (record {
  rule = sticky.rule;
  camera_id = sticky.camera_id;
  event_id = sticky.event_id;
  armed_at = now;
})

-- The deadline when motion ends: `started_at.elapsed()` is read before `Instant::now()`.
unfoldable pub motion_deadline : ClipRecorderConfig → ℕ → ℕ → ℕ → ℕ
motion_deadline cfg started_at elapsed_at now =
    let remaining_min = cfg.min_clip_duration - (elapsed_at - started_at) in
    if ltb 0 remaining_min then now + remaining_min else now + cfg.post_roll

abbrev pub stop_when_quiet : ClipRecorderConfig → ℕ → ℕ → ℕ → Option ℕ → Option ℕ
stop_when_quiet cfg started_at elapsed_at now none =
    some (motion_deadline cfg started_at elapsed_at now)
stop_when_quiet cfg started_at elapsed_at now (some t) = some t

-- The `match` on the state; the first flag is `has_active_motion`.
unfoldable pub motion_transition :
    ClipRecorderConfig → Bool → MotionState → Option StickyMotion → ℕ → ℕ → State → State
motion_transition cfg active motion sticky elapsed_at now idle =
    if active then arm (or_min motion sticky) now idle else idle
motion_transition cfg active motion sticky elapsed_at now (armed a) =
    if active
    then armed (record a { armed_at = now })
    else if ltb (seconds 30) (elapsed_at - a.armed_at)
    then idle
    else armed a
motion_transition cfg active motion sticky elapsed_at now (recording r) = recording (record r {
  stop_at = if active then none else stop_when_quiet cfg r.started_at elapsed_at now r.stop_at;
})

-- `on_motion_state_change`; the two numbers are the two reads of the clock.
unfoldable pub on_motion_state_change : ℕ → ℕ → MotionState → ClipRecorder → ClipRecorder
on_motion_state_change elapsed_at now motion rec =
    let sticky = next_sticky motion (is_recording rec.state) rec.sticky_motion in
    record rec {
      last_motion_state = motion;
      sticky_motion = sticky;
      state =
          motion_transition rec.cfg (not (is_empty motion)) motion sticky elapsed_at now rec.state;
    }

-- `rearm_if_motion_active`.
unfoldable pub rearm_if_motion_active : ℕ → ClipRecorder → ClipRecorder
rearm_if_motion_active now rec =
    if is_empty rec.last_motion_state
    then rec
    else record rec { state = arm (or_min rec.last_motion_state rec.sticky_motion) now rec.state }
