-- ===== src/Clip/Tests.antt =====
-- Runs of the clip code on files in memory, and instances.
use sentinel_video_receiver.Prelude.{
  ℕ, suc, ◌+◌, ◌<◌, ◌≡◌, refl, arith, Option, none, some, List, [], ◌∷◌, Bytes, text_same, true,
  length, replicate, ◌*◌,
}
use sentinel_video_receiver.Motion.Event.{MotionState}
use sentinel_video_receiver.H264.Nal.{nal_type_from_annexb}
use sentinel_video_receiver.Clip.Memory.{Memory, memory_files, flaky_files, no_files}
use sentinel_video_receiver.Clip.Paths.{
  file_name, split_last, has_extension, with_extension, safe_name,
}
use sentinel_video_receiver.Clip.Writer
use sentinel_video_receiver.Clip.Writer.Content.{write_nals, write_clip, content-write_clip}
use sentinel_video_receiver.Clip.Writer.Retry.{write_active_clip_nal_with_retry, total_bytes-retry}
use sentinel_video_receiver.Clip.Recorder.{
  ClipRecorder, ClipRecorderConfig, Armed, Recording, armed, recording, seconds, new, min_by_rule,
  next_sticky, motion_deadline, motion_transition, on_motion_state_change, rearm_if_motion_active,
}
use sentinel_video_receiver.Clip.Recorder.Cleanup.{
  Clip, insert_by_mtime, sort_by_mtime, older_than, contains, retain_unmarked, oldest_over,
  mark_by_age, excess, mark_by_size, to_delete, collect, delete_all, cleanup_old_clips,
}
use sentinel_video_receiver.Clip.Recorder.Cleanup.Limits.{Limits, to_delete-Limits}
use sentinel_video_receiver.Clip.Recorder.Cleanup.Within.{to_delete_none}
use sentinel_video_receiver.Clip.Recorder.Stop.{
  Clock, ClipSidecar, num_seconds, sidecar_of, meta_of, write_sidecar_json, announce, stop_clip,
  stop_recording, flush_recording, maybe_stop_on_deadline,
}
use sentinel_video_receiver.Clip.Recorder.Nal.{
  clip_name, new_recording, spawn_clip_writer, write_param_sets_and_idr, start_recording,
  on_nal_recording, feed_param_set, on_nal_slice, on_nal,
}
use sentinel_video_receiver.Clip.Recorder.Run.{Event, tick, motion, nal, step, rounds}
use sentinel_video_receiver.Clip.Recorder.Run.Invariant.{WellFormed}
use sentinel_video_receiver.Clip.Recorder.Run.Preserved.{After, last_now, rounds-new-WellFormed}
use sentinel_video_receiver.Clip.Recorder.Run.Deadline.{recording-tick}

program : Unit {0}
unfolding text_same nal_type_from_annexb file_name split_last has_extension with_extension safe_name
    Writer.new_writer Writer.total_bytes Writer.create Writer.write_pending Writer.flush_pending
    Writer.write_nal Writer.flush Writer.finalize new min_by_rule next_sticky motion_deadline
    motion_transition on_motion_state_change rearm_if_motion_active insert_by_mtime sort_by_mtime
    older_than contains retain_unmarked oldest_over mark_by_age excess mark_by_size to_delete
    collect delete_all cleanup_old_clips num_seconds sidecar_of meta_of write_sidecar_json announce
    stop_clip stop_recording flush_recording maybe_stop_on_deadline clip_name new_recording
    spawn_clip_writer write_param_sets_and_idr start_recording on_nal_recording feed_param_set
    on_nal_slice on_nal step rounds write_clip write_nals
program = tt

content-write_clip_example :
    memory_files.content
      (write_clip memory_files no_files (1 ∷ []) (2 ∷ []) 0 ((3 ∷ 4 ∷ []) ∷ (5 ∷ []) ∷ [])).0.0
      (2 ∷ [])
    ≡ some (3 ∷ 4 ∷ 5 ∷ [])
unfolding program
content-write_clip_example =
    content-write_clip memory_files no_files (1 ∷ []) (2 ∷ []) 0 ((3 ∷ 4 ∷ []) ∷ (5 ∷ []) ∷ []) refl

abbrev config : ClipRecorderConfig
config = record {
  output_dir = b'd' ∷ [];
  post_roll = 5;
  min_clip_duration = 10;
  flush_interval = 1;
  stale_part_max_age = 100;
  write_batch_bytes = 0;
  max_files = some 2;
  max_age_secs = some 5;
  max_total_bytes = some 30;
  max_clip_bytes = none;
  max_clip_secs = some 60;
}

abbrev no_json : ClipSidecar → Option Bytes
no_json s = none

abbrev clock_at : ℕ → Clock
clock_at t = record { elapsed_at = t; now = t; utc = t; stamp = []; ended_utc = t; system = t }

abbrev motion_on : MotionState
motion_on = (b'r' ∷ [], record { camera_id = b'c' ∷ []; event_id = b'e' ∷ [] }) ∷ []

abbrev nal_of : ℕ → Bytes
nal_of nt = 0 ∷ 0 ∷ 0 ∷ 1 ∷ nt ∷ 0 ∷ []

abbrev start_events : List (Clock × Event)
start_events =
    (clock_at 1, nal (nal_of 7))
    ∷ (clock_at 2, nal (nal_of 8))
    ∷ (clock_at 3, motion motion_on)
    ∷ (clock_at 4, nal (nal_of 5))
    ∷ []

abbrev started : Memory × ClipRecorder
started = (rounds memory_files no_json start_events (no_files, new config)).0

abbrev later : (instant : ℕ) → After memory_files no_json instant (clock_at (suc instant))
later instant = record { elapsed_lem = omega arith; now_lem = omega arith }

rounds-new-WellFormed_example : WellFormed (last_now memory_files no_json 0 start_events) started.1
unfolding program
rounds-new-WellFormed_example =
    rounds-new-WellFormed memory_files no_json config start_events no_files
      (later 0, (later 1, (later 2, (later 3, tt)))) refl

-- A recorder with a clip under way, motion active and both parameter sets seen.
abbrev armed_for : Armed
armed_for = record { rule = b'r' ∷ []; camera_id = b'c' ∷ []; event_id = b'e' ∷ []; armed_at = 3 }

abbrev clip : Recording
clip =
    new_recording config (clock_at 4) armed_for (b'f' ∷ [])
      (Writer.new_writer (b'p' ∷ []) (b'f' ∷ []) 0)

abbrev recorder : ClipRecorder
recorder = record {
  cfg = config;
  state = recording clip;
  last_sps = some (nal_of 7);
  last_pps = some (nal_of 8);
  last_motion_state = motion_on;
  sticky_motion = some (record { rule = b'r' ∷ []; camera_id = b'c' ∷ []; event_id = b'e' ∷ [] });
  clip_meta_tx = some [];
}

abbrev late : Clock
late = clock_at 60000000005

-- The hard deadline ends the clip, and the recorder is armed again.
armed_again :
    (step memory_files no_json late tick (no_files, recorder)).0.1.state
    ≡ armed (record armed_for { armed_at = 60000000005 })
unfolding program
armed_again = refl

recording-tick_example : 13 < clip.started_at + seconds 60
unfolding program
recording-tick_example =
    recording-tick memory_files no_json (clock_at 13) 4 60 no_files recorder clip
      (record { started_lem = omega arith; hard_lem = refl; stop_lem = omega arith }, tt, tt) refl
      refl

-- Two clips too old or too many, found in any order.
abbrev found : List Clip
found =
    record { path = 3 ∷ []; mtime = 5999999999; size = 10 }
    ∷ record { path = 1 ∷ []; mtime = 3; size = 10 }
    ∷ record { path = 4 ∷ []; mtime = 6000000000; size = 10 }
    ∷ record { path = 2 ∷ []; mtime = 5999999998; size = 10 }
    ∷ []

cleanup_run : to_delete config 5000000100 found ≡ (1 ∷ []) ∷ (2 ∷ []) ∷ []
unfolding program
cleanup_run = refl

to_delete-Limits_example :
    Limits config 5000000100
      (retain_unmarked (to_delete config 5000000100 found) (sort_by_mtime found))
to_delete-Limits_example = to_delete-Limits config 5000000100 found

to_delete_none_example :
    to_delete config 0 (record { path = 3 ∷ []; mtime = 7; size = 10 } ∷ []) ≡ []
to_delete_none_example =
    to_delete_none config 0 (record { path = 3 ∷ []; mtime = 7; size = 10 } ∷ [])
      (record { files_lem = omega arith; bytes_lem = omega arith; age_lem = (omega arith, tt) })

-- A new writer, which writes out the first NAL: it has as many bytes as may be pending.
abbrev big_nal : Bytes
big_nal = replicate 16384 1

abbrev first_writer : Writer.ClipWriter
first_writer = record {
  part_path = b'p' ∷ [];
  final_path = b'f' ∷ [];
  pending = [];
  max_pending_bytes = 16384;
  written_bytes = 0;
}

failed : (Writer.write_nal flaky_files big_nal ((true, no_files), first_writer)).1 ≡ some tt
unfolding program
failed = refl

then_done :
    (Writer.write_nal flaky_files big_nal
      (Writer.write_nal flaky_files big_nal ((true, no_files), first_writer)).0).1
    ≡ none
unfolding program
then_done = refl

total_bytes-retry_example :
    let ((s, w), done) =
      write_active_clip_nal_with_retry flaky_files 1 big_nal ((true, no_files), first_writer) in
    (done ≡ true) × (Writer.total_bytes w ≡ Writer.total_bytes first_writer + 2 * length big_nal)
total_bytes-retry_example =
    total_bytes-retry flaky_files 0 big_nal (true, no_files) first_writer tt failed then_done
