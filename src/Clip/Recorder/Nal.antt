-- ===== src/Clip/Recorder/Nal.antt =====
-- `on_nal`, `spawn_clip_writer` and `write_param_sets_and_idr` of core/clip_recorder.rs.
use sentinel_video_receiver.Prelude.{
  ℕ, ◌+◌, Bool, false, Option, none, some, ◌∷◌, ◌++◌, leb, ◌==◌, if◌then◌else◌, Bytes, Text,
}
use sentinel_video_receiver.H264.Nal.{nal_type_from_annexb}
use sentinel_video_receiver.Clip.Files.{ClipFiles, and_then}
use sentinel_video_receiver.Clip.Paths.{join, safe_name, h264, part}
use sentinel_video_receiver.Clip.Writer
use sentinel_video_receiver.Clip.Writer.{ClipWriter, total_bytes}
use sentinel_video_receiver.Clip.Recorder.{
  ClipRecorder, ClipRecorderConfig, Armed, Recording, idle, armed, recording, seconds,
}
use sentinel_video_receiver.Clip.Recorder.Stop.{Clock, ClipSidecar, stop_recording}

-- "{ts}_{camera_id}_{event_id}_{safe_rule}.h264"
unfoldable pub clip_name : Text → Text → Text → Text → Text
clip_name ts rule camera_id event_id =
    ts ++ (b'_' ∷ (camera_id ++ (b'_' ∷ (event_id ++ (b'_' ∷ (safe_name rule ++ (b'.' ∷ h264)))))))

-- What `started_at` and the configuration give a new recording.
unfoldable pub new_recording : ClipRecorderConfig → Clock → Armed → Text → ClipWriter → Recording
new_recording cfg clock a file_path writer = record {
  rule = a.rule;
  camera_id = a.camera_id;
  event_id = a.event_id;
  writer = writer;
  stop_at = some (clock.now + cfg.min_clip_duration);
  hard_stop_at = elim cfg.max_clip_secs [
    | none ↦ none
    | some secs ↦ some (clock.now + seconds secs)
  ];
  started_at = clock.now;
  started_at_utc = clock.utc;
  file_path = file_path;
}

abbrev pub over_limit : ℕ → Option ℕ → Bool
over_limit total none = false
over_limit total (some max_bytes) = leb max_bytes total

module _ (f : ClipFiles) (to_json : ClipSidecar → Option Bytes) where
  unfoldable pub spawn_clip_writer :
      ClipRecorderConfig → Clock → Armed → f.State → (f.State × ClipWriter) × Option f.Error
  spawn_clip_writer cfg clock a s =
      let file_path = join cfg.output_dir (clip_name clock.stamp a.rule a.camera_id a.event_id) in
      Writer.create f s (file_path ++ (b'.' ∷ part)) file_path cfg.write_batch_bytes

  unfoldable pub write_param_sets_and_idr :
      Bytes → Bytes → Bytes → f.State × ClipWriter → (f.State × ClipWriter) × Option f.Error
  write_param_sets_and_idr sps pps idr sw =
      and_then (and_then (Writer.write_nal f sps sw) (Writer.write_nal f pps))
        (Writer.write_nal f idr)

  -- An IDR slice while armed, with both parameter sets at hand. On an error the recorder stays armed
  -- and the error is returned.
  unfoldable pub start_recording :
      Clock
      → Armed
      → Bytes
      → Bytes
      → Bytes
      → f.State × ClipRecorder
      → (f.State × ClipRecorder) × Option f.Error
  start_recording clock a sps pps nal (s, rec) =
      let ((s', w), e) =
        and_then (spawn_clip_writer rec.cfg clock a s) (write_param_sets_and_idr sps pps nal) in
      elim e [
        | some e ↦ ((s', rec), some e)
        | none ↦ (
          (s', record rec { state = recording (new_recording rec.cfg clock a w.final_path w) }),
          none,
        )
      ]

  abbrev pub on_nal_armed :
      Clock
      → Armed
      → ℕ
      → Bytes
      → Option Bytes
      → Option Bytes
      → f.State × ClipRecorder
      → (f.State × ClipRecorder) × Option f.Error
  on_nal_armed clock a nt nal (some sps) (some pps) (s, rec) =
      if nt == 5 then start_recording clock a sps pps nal (s, rec) else ((s, rec), none)
  on_nal_armed clock a nt nal (some sps) none (s, rec) = ((s, rec), none)
  on_nal_armed clock a nt nal none pps (s, rec) = ((s, rec), none)

  unfoldable pub on_nal_recording :
      Clock → Recording → Bytes → f.State × ClipRecorder → (f.State × ClipRecorder) × Option f.Error
  on_nal_recording clock r nal (s, rec) =
      let ((s', w), e) = Writer.write_nal f nal (s, r.writer) in
      let rec' = record rec { state = recording (record r { writer = w }) } in
      elim e [
        | some e ↦ (stop_recording f to_json clock (s', rec'), none)
        | none ↦
            if over_limit (total_bytes w) rec.cfg.max_clip_bytes
            then (stop_recording f to_json clock (s', rec'), none)
            else ((s', rec'), none)
      ]

  -- A parameter set goes into the clip under way too; an error of that write is dropped.
  unfoldable pub feed_param_set : Bytes → f.State × ClipRecorder → f.State × ClipRecorder
  feed_param_set nal (s, rec) = elim rec.state [
    | idle ↦ (s, rec)
    | armed a ↦ (s, rec)
    | recording r ↦
        let (s', w) = (Writer.write_nal f nal (s, r.writer)).0 in
        (s', record rec { state = recording (record r { writer = w }) })
  ]

  unfoldable pub on_nal_slice :
      Clock → ℕ → Bytes → f.State × ClipRecorder → (f.State × ClipRecorder) × Option f.Error
  on_nal_slice clock nt nal (s, rec) = elim rec.state [
    | idle ↦ ((s, rec), none)
    | armed a ↦ on_nal_armed clock a nt nal rec.last_sps rec.last_pps (s, rec)
    | recording r ↦ on_nal_recording clock r nal (s, rec)
  ]

  unfoldable pub on_nal :
      Clock → Bytes → f.State × ClipRecorder → (f.State × ClipRecorder) × Option f.Error
  on_nal clock nal (s, rec) = elim (nal_type_from_annexb nal) [
    | none ↦ ((s, rec), none)
    | some nt ↦
        if nt == 7
        then (feed_param_set nal (s, record rec { last_sps = some nal }), none)
        else if nt == 8
        then (feed_param_set nal (s, record rec { last_pps = some nal }), none)
        else on_nal_slice clock nt nal (s, rec)
  ]
