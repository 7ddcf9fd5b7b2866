-- ===== src/Clip/Recorder/Stop.antt =====
-- `stop_recording`, `write_sidecar_json`, `flush_recording` and `maybe_stop_on_deadline` of
-- core/clip_recorder.rs. `to_json` is serde_json's `to_vec_pretty`; `none` is its error.
use sentinel_video_receiver.Prelude.{
  ℕ, ◌-◌, ◌/◌, Bool, false, Option, none, some, List, [], ◌∷◌, ◌++◌, leb, ◌||◌, if◌then◌else◌,
  Bytes, Text, zero, suc,
}
use sentinel_video_receiver.Clip.Files.{ClipFiles}
use sentinel_video_receiver.Clip.Paths.{file_name, with_extension, json}
use sentinel_video_receiver.Clip.Writer
use sentinel_video_receiver.Clip.Writer.{ClipWriter}
use sentinel_video_receiver.Clip.Recorder.{
  ClipMeta, ClipRecorder, Recording, idle, armed, recording, rearm_if_motion_active,
}
use sentinel_video_receiver.Clip.Recorder.Cleanup.{cleanup_old_clips}

-- `num_seconds` of a difference of two times, which is truncated towards zero.
pub data ℤ : Type 0 where
  pos negsuc : ℕ → ℤ

abbrev negated : ℕ → ℤ
negated zero = pos zero
negated (suc n) = negsuc n

unfoldable pub num_seconds : ℕ → ℕ → ℤ
num_seconds ended started =
    if leb started ended
    then pos ((ended - started) / 1000000000)
    else negated ((started - ended) / 1000000000)

pub record ClipSidecar : Type 0 where
  pub camera_id : Text
  pub event_id : Text
  pub rule : Text
  pub filename : Text
  pub file_size_bytes : ℕ
  pub started_at : ℕ
  pub ended_at : ℕ
  pub duration_secs : ℤ

-- The reads of the clocks in one call: `Instant::now()` twice, `Utc::now()` at the start and at the
-- end of a clip and as text, and `SystemTime::now()`.
pub record Clock : Type 0 where
  pub elapsed_at : ℕ
  pub now : ℕ
  pub utc : ℕ
  pub stamp : Text
  pub ended_utc : ℕ
  pub system : ℕ

unfoldable pub sidecar_of : Recording → ℕ → ℕ → ClipSidecar
sidecar_of r file_size ended_at = record {
  camera_id = r.camera_id;
  event_id = r.event_id;
  rule = r.rule;
  filename = file_name r.writer.final_path;
  file_size_bytes = file_size;
  started_at = r.started_at_utc;
  ended_at = ended_at;
  duration_secs = num_seconds ended_at r.started_at_utc;
}

unfoldable pub meta_of : Recording → ℕ → ℕ → ClipMeta
meta_of r file_size ended_at = record {
  camera_id = r.camera_id;
  event_id = r.event_id;
  rule = r.rule;
  file_path = r.writer.final_path;
  file_size = file_size;
  started_at = r.started_at_utc;
  ended_at = ended_at;
}

-- `try_send`; its result is dropped.
abbrev send_meta : ClipMeta → Option (List ClipMeta) → Option (List ClipMeta)
send_meta meta none = none
send_meta meta (some sent) = some (sent ++ (meta ∷ []))

-- `metadata(..).map(|m| m.len()).unwrap_or(0)`
abbrev len_or_zero : Option (ℕ × ℕ) → ℕ
len_or_zero none = 0
len_or_zero (some (mtime, len)) = len

-- `now >= t`, of a deadline if there is one.
abbrev pub due : ℕ → Option ℕ → Bool
due now none = false
due now (some t) = leb t now

module _ (f : ClipFiles) (to_json : ClipSidecar → Option Bytes) where
  unfoldable pub write_sidecar_json : Recording → ℕ → ℕ → f.State → f.State
  write_sidecar_json r file_size ended_at s = elim (to_json (sidecar_of r file_size ended_at)) [
    | none ↦ s
    | some bytes ↦ (f.write s (with_extension r.writer.final_path json) bytes).0
  ]

  -- What follows a clip that was finalized.
  unfoldable pub announce : Clock → Recording → f.State × ClipRecorder → f.State × ClipRecorder
  announce clock r (s, rec) =
      let file_size = len_or_zero (f.metadata s r.writer.final_path) in
      let s' = write_sidecar_json r file_size clock.ended_utc s in
      (
        cleanup_old_clips f rec.cfg clock.system s',
        record rec {
          clip_meta_tx = send_meta (meta_of r file_size clock.ended_utc) rec.clip_meta_tx;
        },
      )

  -- The body of the `if let State::Recording`; the state is `Idle` already. A failed flush is
  -- logged, a failed finalize keeps the .part file; neither is an error of the call.
  unfoldable pub stop_clip : Clock → Recording → f.State × ClipRecorder → f.State × ClipRecorder
  stop_clip clock r (s, rec) =
      let (s₁, w₁) = (Writer.flush f (s, r.writer)).0 in
      let ((s₂, w₂), finalized) = Writer.finalize f (s₁, w₁) in
      elim finalized [ some e ↦ (s₂, rec) | none ↦ announce clock r (s₂, rec) ]

  unfoldable pub stop_recording : Clock → f.State × ClipRecorder → f.State × ClipRecorder
  stop_recording clock (s, rec) = elim rec.state [
    | idle ↦ (s, record rec { state = idle })
    | armed a ↦ (s, record rec { state = idle })
    | recording r ↦ stop_clip clock r (s, record rec { state = idle })
  ]

  unfoldable pub flush_recording : f.State × ClipRecorder → f.State × ClipRecorder
  flush_recording (s, rec) = elim rec.state [
    | idle ↦ (s, rec)
    | armed a ↦ (s, rec)
    | recording r ↦
        let (s', w) = (Writer.flush f (s, r.writer)).0 in
        (s', record rec { state = recording (record r { writer = w }) })
  ]

  unfoldable pub maybe_stop_on_deadline : Clock → f.State × ClipRecorder → f.State × ClipRecorder
  maybe_stop_on_deadline clock (s, rec) = elim rec.state [
    | idle ↦ (s, rec)
    | armed a ↦ (s, rec)
    | recording r ↦
        let hard_due = due clock.elapsed_at r.hard_stop_at in
        if due clock.elapsed_at r.stop_at || hard_due
        then (let (s', rec') = stop_recording clock (s, rec) in
            if hard_due then (s', rearm_if_motion_active clock.now rec') else (s', rec'))
        else (s, rec)
  ]
