-- ===== src/Clip/Recorder/Run/Deadline.antt =====
-- When a clip ends.
use sentinel_video_receiver.Prelude.{ℕ, ◌+◌, ◌<◌, ◌≡◌, arith, Option, some, Bytes}
use sentinel_video_receiver.Clip.Files.{ClipFiles}
use sentinel_video_receiver.Clip.Recorder.{
  ClipRecorder, Recording, recording, seconds, rearm_if_motion_active,
}
use sentinel_video_receiver.Clip.Recorder.Stop.{Clock, ClipSidecar, maybe_stop_on_deadline}
use sentinel_video_receiver.Clip.Recorder.Run.{tick, step}
use sentinel_video_receiver.Clip.Recorder.Run.Invariant.{WellFormed}
use sentinel_video_receiver.Clip.Recorder.Run.Preserved.{stop_recording_lem}

module _ (f : ClipFiles) (to_json : ClipSidecar → Option Bytes) where
  -- A well-formed recorder with `max_clip_secs` that still records after a tick began its clip less
  -- than `max_clip_secs` before it.
  pub recording-tick :
      (clock : Clock) (instant secs : ℕ) (s : f.State) (rec : ClipRecorder) (r : Recording)
      → WellFormed instant rec
      → rec.cfg.max_clip_secs ≡ some secs
      → (step f to_json clock tick (s, rec)).0.1.state ≡ recording r
      → clock.elapsed_at < r.started_at + seconds secs
  unfolding step maybe_stop_on_deadline rearm_if_motion_active
  recording-tick clock instant secs s rec r ok h k =
      ground (arith, ok, h, k, stop_recording_lem f to_json clock s rec)
