-- ===== src/Clip/Recorder/Run.antt =====
-- The loop of `ClipRecorder::run` of core/clip_recorder.rs: the arms of its `select!`, in any order.
pub mod Invariant
pub mod Preserved
pub mod Deadline
use sentinel_video_receiver.Prelude.{
  ℕ, ◌≤◌, ◌≡◌, Bool, Option, none, some, List, [], ◌∷◌, Bytes, Text,
}
use sentinel_video_receiver.Motion.Event.{MotionState}
use sentinel_video_receiver.Clip.Files.{ClipFiles, and_then}
use sentinel_video_receiver.Clip.Recorder.{ClipRecorder, on_motion_state_change}
use sentinel_video_receiver.Clip.Recorder.Cleanup.{cleanup_old_clips, cleanup_stale_parts}
use sentinel_video_receiver.Clip.Recorder.Stop.{
  Clock, ClipSidecar, stop_recording, flush_recording, maybe_stop_on_deadline,
}
use sentinel_video_receiver.Clip.Recorder.Nal.{on_nal}

pub data Event : Type 0 where
  tick cleanup flush : Event
  motion : MotionState → Event
  nal : Bytes → Event

module _ (f : ClipFiles) (to_json : ClipSidecar → Option Bytes) where
  -- One round of the loop; only `on_nal` hands an error on.
  unfoldable pub step :
      Clock → Event → f.State × ClipRecorder → (f.State × ClipRecorder) × Option f.Error
  step clock tick sr = (maybe_stop_on_deadline f to_json clock sr, none)
  step clock cleanup (s, rec) = ((cleanup_old_clips f rec.cfg clock.system s, rec), none)
  step clock flush sr = (flush_recording f to_json sr, none)
  step clock (motion state) (s, rec) =
      ((s, on_motion_state_change clock.elapsed_at clock.now state rec), none)
  step clock (nal bytes) sr = on_nal f to_json clock bytes sr

  -- The rounds so far, up to the first error.
  unfoldable pub rounds :
      List (Clock × Event) → f.State × ClipRecorder → (f.State × ClipRecorder) × Option f.Error
  rounds [] sr = (sr, none)
  rounds ((clock, event) ∷ events) sr = and_then (step clock event sr) (rounds events)

  -- `run`: the directory is made and stale parts are removed first. The branches of the timers are
  -- always there, so that the loop ends with an error only.
  unfoldable pub run :
      List (Clock × Event) → ℕ → f.State × ClipRecorder → (f.State × ClipRecorder) × Option f.Error
  run events system (s, rec) =
      let (s', e) = f.create_dir_all s rec.cfg.output_dir in
      and_then ((s', rec), e)
        λ (s, rec). rounds events (cleanup_stale_parts f rec.cfg system s, rec)
