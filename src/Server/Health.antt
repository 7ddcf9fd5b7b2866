-- ===== src/Server/Health.antt =====
-- The counters of `run_stream` in sentinel_rtp_cam/src/server_pipeline.rs, and the health file that is
-- written from them. What only log lines read is left out. Times of `Utc` and `Instant` are nanoseconds.
use sentinel_video_receiver.Prelude.{
  ℕ, ◌-◌, ◌/◌, max, Bool, false, Option, none, some, [], ◌∷◌, ◌++◌, ltb, leb, if◌then◌else◌, Bytes,
  Text,
}
use sentinel_video_receiver.Clip.Files.{ClipFiles, and_then}
use sentinel_video_receiver.Clip.Paths.{join}
use sentinel_video_receiver.Clip.Recorder.{seconds}
use sentinel_video_receiver.Live.Playlist.{decimal}
use sentinel_video_receiver.Live.Stream.{saturating_suc}

pub data StreamHealthState : Type 0 where
  idle receiving stale : StreamHealthState

pub record StreamRuntimeStats : Type 0 where
  pub total_rtp_packets : ℕ
  pub total_access_units : ℕ
  pub total_gaps : ℕ
  pub total_motion_events : ℕ
  pub total_parse_errors : ℕ
  pub last_rtp_at : Option ℕ
  pub last_access_unit_at : Option ℕ
  pub last_gap_at : Option ℕ
  pub last_motion_at : Option ℕ
  pub last_error_at : Option ℕ
  pub last_health_write_at : Option ℕ

abbrev pub no_stats : StreamRuntimeStats
no_stats = record {
  total_rtp_packets = 0;
  total_access_units = 0;
  total_gaps = 0;
  total_motion_events = 0;
  total_parse_errors = 0;
  last_rtp_at = none;
  last_access_unit_at = none;
  last_gap_at = none;
  last_motion_at = none;
  last_error_at = none;
  last_health_write_at = none;
}

pub record StreamHealthSnapshot : Type 0 where
  pub stream_id : ℕ
  pub state : StreamHealthState
  pub updated_at : ℕ
  pub stale_after_secs : ℕ
  pub ring_secs : ℕ
  pub clip_active : Bool
  pub clip_pending : Bool
  pub total_rtp_packets : ℕ
  pub total_access_units : ℕ
  pub total_gaps : ℕ
  pub total_motion_events : ℕ
  pub total_parse_errors : ℕ
  pub last_rtp_at : Option ℕ
  pub last_access_unit_at : Option ℕ
  pub last_gap_at : Option ℕ
  pub last_motion_at : Option ℕ
  pub last_error_at : Option ℕ

pub record StreamConfig : Type 0 where
  pub stream_id : ℕ
  pub clip_dir : Text
  pub ring_secs : ℕ
  pub post_secs : ℕ
  pub stale_part_secs : ℕ
  pub max_clip_secs : Option ℕ
  pub clip_write_retry_count : ℕ
  pub stale_secs : ℕ

unfoldable pub mark_stream_error : ℕ → StreamRuntimeStats → StreamRuntimeStats
mark_stream_error utc stats = record stats {
  total_parse_errors = saturating_suc stats.total_parse_errors;
  last_error_at = some utc;
}

-- A time before the last packet counts as no time.
unfoldable pub derive_stream_health_state : Option ℕ → ℕ → ℕ → StreamHealthState
derive_stream_health_state none stale_secs now = idle
derive_stream_health_state (some last_rtp_at) stale_secs now =
    if leb ((now - last_rtp_at) / 1000000000) (max stale_secs 1) then receiving else stale

unfoldable pub snapshot_of :
    StreamConfig → StreamRuntimeStats → Bool → Bool → ℕ → StreamHealthSnapshot
snapshot_of cfg stats clip_active clip_pending now = record {
  stream_id = cfg.stream_id;
  state = derive_stream_health_state stats.last_rtp_at cfg.stale_secs now;
  updated_at = now;
  stale_after_secs = cfg.stale_secs;
  ring_secs = cfg.ring_secs;
  clip_active = clip_active;
  clip_pending = clip_pending;
  total_rtp_packets = stats.total_rtp_packets;
  total_access_units = stats.total_access_units;
  total_gaps = stats.total_gaps;
  total_motion_events = stats.total_motion_events;
  total_parse_errors = stats.total_parse_errors;
  last_rtp_at = stats.last_rtp_at;
  last_access_unit_at = stats.last_access_unit_at;
  last_gap_at = stats.last_gap_at;
  last_motion_at = stats.last_motion_at;
  last_error_at = stats.last_error_at;
}

-- "stream_{id}.health.json"
abbrev pub health_name : ℕ → Text
health_name stream_id =
    (b's' ∷ b't' ∷ b'r' ∷ b'e' ∷ b'a' ∷ b'm' ∷ b'_' ∷ [])
    ++ (decimal stream_id
        ++ (b'.' ∷ b'h' ∷ b'e' ∷ b'a' ∷ b'l' ∷ b't' ∷ b'h' ∷ b'.' ∷ b'j' ∷ b's' ∷ b'o' ∷ b'n' ∷ []))

-- ".tmp"
abbrev tmp : Text
tmp = b'.' ∷ b't' ∷ b'm' ∷ b'p' ∷ []

abbrev within_second : ℕ → Option ℕ → Bool
within_second now none = false
within_second now (some last) = ltb (now - last) (seconds 1)

module _ (f : ClipFiles) (health_json : StreamHealthSnapshot → Bytes) (cfg : StreamConfig) where
  unfoldable pub write_stream_health :
      ℕ → StreamRuntimeStats → Bool → Bool → f.State → f.State × Option f.Error
  write_stream_health utc stats clip_active clip_pending s =
      let final_path = join cfg.clip_dir (health_name cfg.stream_id) in
      let temp_path = join cfg.clip_dir (health_name cfg.stream_id ++ tmp) in
      let bytes = health_json (snapshot_of cfg stats clip_active clip_pending utc) in
      and_then (f.write s temp_path bytes) λ s'. f.rename s' temp_path final_path

  -- The first number is `Instant::now()`, the second `Utc::now()`.
  unfoldable pub maybe_write_stream_health :
      ℕ
      → ℕ
      → Bool
      → Bool
      → f.State × StreamRuntimeStats
      → (f.State × StreamRuntimeStats) × Option f.Error
  maybe_write_stream_health now utc clip_active clip_pending (s, stats) =
      if within_second now stats.last_health_write_at
      then ((s, stats), none)
      else (let (s', e) = write_stream_health utc stats clip_active clip_pending s in
          and_then ((s', stats), e)
            λ (s, stats). ((s, record stats { last_health_write_at = some now }), none))
