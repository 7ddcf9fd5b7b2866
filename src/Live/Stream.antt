-- ===== src/Live/Stream.antt =====
-- `run_stream_v2` of sentinel_rtp_cam/src/live/v2.rs and the functions that it calls for segments. The
-- counters and times for health and logs are left out. A panic of a parser is not told from an error.
pub mod Messages
pub mod Order
pub mod Marks
pub mod Losses
pub mod Runs
use sentinel_video_receiver.Prelude.{
  ℕ, ◌+◌, ◌-◌, ◌*◌, ◌%◌, ◌^◌, max, min, Bool, true, false, not, ◌&&◌, ◌||◌, Option, none, some,
  List, [], ◌∷◌, ◌++◌, ltb, leb, ◌==◌, if◌then◌else◌, is_empty, Outcome, ok, err, panic, Bytes,
  Text,
}
use sentinel_video_receiver.Rtp
use sentinel_video_receiver.Rtp.{RtpPacket}
use sentinel_video_receiver.H264.Nal.{nal_type_from_annexb}
use sentinel_video_receiver.H264.Depacketizer
use sentinel_video_receiver.H264.Depacketizer.{H264Depacketizer, push_rtp_payload}
use sentinel_video_receiver.H264.SyncGate
use sentinel_video_receiver.H264.SyncGate.{H264SyncGate, push_nal}
use sentinel_video_receiver.Clip.Files.{ClipFiles, and_then}
use sentinel_video_receiver.Clip.Paths.{join}
use sentinel_video_receiver.Clip.Recorder.{seconds}
use sentinel_video_receiver.Live.Publisher.{
  AccessUnit, MpegTsSegmentWriter, publish, discard, publish_bytes, create_segment,
  write_access_unit,
}
use sentinel_video_receiver.Live.Playlist
use sentinel_video_receiver.Live.Playlist.{PlaylistState, next_segment_path, push_segment}

pub record CurrentSegment : Type 0 where
  pub seq : ℕ
  pub writer : MpegTsSegmentWriter
  pub started_at : ℕ
  pub access_units_written : ℕ
  pub discontinuity : Bool

-- The variables of `run_stream_v2`.
pub record Pipeline : Type 0 where
  pub dep : H264Depacketizer
  pub sync_gate : H264SyncGate
  pub expected_seq : Option ℕ
  pub current_au_nals : List Bytes
  pub current_au_rtp_ts : Option ℕ
  pub playlist : PlaylistState
  pub current_segment : Option CurrentSegment
  pub pending_discontinuity : Bool
  pub discontinuity_count : ℕ
  pub latest_segment_seq : ℕ

pub record LivePipelineV2Config : Type 0 where
  pub output_root : Text
  pub session_output_root : Text
  pub segment_secs : ℕ
  pub window_secs : ℕ
  pub h264_sync_seed : Option (Bytes × Bytes)

-- The reads of the clock while a message is handled.
pub record Reads : Type 0 where
  pub rotate_at : ℕ
  pub finalized_at : ℕ
  pub opened_at : ℕ

pub data StreamMsg : Type 0 where
  rtp : Bytes → StreamMsg
  gap motion : StreamMsg

-- `saturating_add(1)` of a u64.
abbrev pub saturating_suc : ℕ → ℕ
saturating_suc n = min (n + 1) (2 ^ 64 - 1)

abbrev pub is_some {ℓ} : {A : Type ℓ} → Option A → Bool
is_some none = false
is_some (some a) = true

unfoldable pub is_idr : Option ℕ → Bool
is_idr none = false
is_idr (some nal_type) = nal_type == 5

unfoldable pub has_idr : List Bytes → Bool
has_idr [] = false
has_idr (nal ∷ nals) = is_idr (nal_type_from_annexb nal) || has_idr nals

unfoldable pub build_access_unit : List Bytes → ℕ → AccessUnit
build_access_unit nals rtp_timestamp = record {
  rtp_timestamp = rtp_timestamp;
  nals = nals;
  has_idr = has_idr nals;
}

abbrev seed_gate : H264SyncGate → Option (Bytes × Bytes) → H264SyncGate
seed_gate gate none = gate
seed_gate gate (some (sps, pps)) = SyncGate.set_sprop_param_sets gate sps pps

unfoldable pub start : LivePipelineV2Config → Pipeline
start cfg = record {
  dep = Depacketizer.new;
  sync_gate = seed_gate (SyncGate.new true) cfg.h264_sync_seed;
  expected_seq = none;
  current_au_nals = [];
  current_au_rtp_ts = none;
  playlist = Playlist.new cfg.segment_secs cfg.window_secs;
  current_segment = none;
  pending_discontinuity = false;
  discontinuity_count = 0;
  latest_segment_seq = 0;
}

-- `should_rotate_segment`; the order of durations is that of their seconds.
unfoldable pub should_rotate_segment : Option CurrentSegment → ℕ → AccessUnit → ℕ → Bool
should_rotate_segment none now next_au target_segment_secs = false
should_rotate_segment (some segment) now next_au target_segment_secs =
    ltb 0 segment.access_units_written
    && (leb (seconds (max target_segment_secs 1)) (now - segment.started_at) && next_au.has_idr)

-- `dep.reset()`, `sync_gate.reset()` and the access unit dropped.
unfoldable pub drop_input : Pipeline → Pipeline
drop_input p = record p {
  dep = Depacketizer.reset p.dep;
  sync_gate = SyncGate.reset p.sync_gate;
  current_au_nals = [];
  current_au_rtp_ts = none;
}

abbrev pub Step : ClipFiles → Type 0
Step f = (f.State × Pipeline) × Option f.Error

module _ (f : ClipFiles) (print_secs : ℕ → Text) (cfg : LivePipelineV2Config) where
  -- What follows `take()` of a segment; whether one was published.
  unfoldable pub finalize_taken :
      ℕ → CurrentSegment → f.State × Pipeline → ((f.State × Pipeline) × Bool) × Option f.Error
  finalize_taken now segment (s, p) =
      if segment.access_units_written == 0
      then (let (s', e) = discard f (s, segment.writer.publisher) in (((s', p), false), e))
      else (let (s₁, e₁) = publish f (s, segment.writer.publisher) in
          let ((s₂, playlist), e₂) =
            and_then ((s₁, p.playlist), e₁)
              (push_segment f print_secs cfg.session_output_root segment.seq
                (now - segment.started_at) segment.discontinuity) in
          elim e₂ [
            | some e ↦ (((s₂, record p { playlist = playlist }), false), some e)
            | none ↦ (
              ((s₂, record p { playlist = playlist; latest_segment_seq = segment.seq }), true),
              none,
            )
          ])

  unfoldable pub finalize_segment :
      ℕ → f.State × Pipeline → ((f.State × Pipeline) × Bool) × Option f.Error
  finalize_segment now (s, p) = elim p.current_segment [
    | none ↦ (((s, p), false), none)
    | some segment ↦ finalize_taken now segment (s, record p { current_segment = none })
  ]

  unfoldable pub handle_discontinuity : ℕ → f.State × Pipeline → Step f
  handle_discontinuity now (s, p) =
      let saw_published_output = ltb 0 p.latest_segment_seq || is_some p.current_segment in
      let (((s', p'), published), e) = finalize_segment now (s, p) in
      elim e [
        | some e ↦ ((s', p'), some e)
        | none ↦
            if saw_published_output
            then (
              (
                s',
                record p' {
                  pending_discontinuity = true;
                  discontinuity_count = saturating_suc p'.discontinuity_count;
                },
              ),
              none,
            )
            else ((s', p'), none)
      ]

  -- A gap, a packet or a payload that cannot be read.
  unfoldable pub on_gap : ℕ → f.State × Pipeline → Step f
  on_gap now sp =
      and_then (handle_discontinuity now sp)
        λ (s, p). ((s, record (drop_input p) { expected_seq = none }), none)
