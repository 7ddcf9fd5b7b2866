-- ===== src/Server/Tests.antt =====
-- Runs of the ingest server's code on files in memory, and instances.
use sentinel_video_receiver.Prelude.{
  ℕ, ◌≡◌, refl, arith, Bool, index, slice, be16, be32, if◌then◌else◌, true, false, some, List, [],
  ◌∷◌, ◌++◌, Bytes,
}
use sentinel_video_receiver.Rtp
use sentinel_video_receiver.H264.Nal.{nal_type_from_annexb, annexb_from_raw_nal}
use sentinel_video_receiver.H264.Depacketizer
use sentinel_video_receiver.Clip.Memory.{Memory, memory_files, no_files}
use sentinel_video_receiver.Clip.Paths.{join, safe_name}
use sentinel_video_receiver.Clip.Writer
use sentinel_video_receiver.Clip.Writer.Content.{concat, write_nals}
use sentinel_video_receiver.Clip.Writer.Retry.{attempts, write_active_clip_nal_with_retry}
use sentinel_video_receiver.Clip.Recorder.{seconds}
use sentinel_video_receiver.Server.Health.{StreamConfig, StreamHealthSnapshot}
use sentinel_video_receiver.Server.Stream.{
  AccessUnit, StreamState, rtp, gap, motion, start, prune_front, prune_ring, should_finalize_clip,
  scan_nals, build_access_unit, drop_input,
}
use sentinel_video_receiver.Server.Stream.Clips.{
  ClipSidecar, or_empty, clip_name, write_preroll_unit, write_preroll, try_start_clip, write_active,
}
use sentinel_video_receiver.Server.Stream.Messages.{
  Reads, Event, message, lose_input, on_gap, on_error, on_motion, admit, push_ring, back,
  start_pending, write_back, on_unit, on_marker, on_pushed, on_packet, on_parsed, on_message, round,
  rounds,
}
use sentinel_video_receiver.Server.Stream.Ring.{young, prune_ring-young}
use sentinel_video_receiver.Server.Stream.History.{units}
use sentinel_video_receiver.Server.Stream.Log.{rounds_log}
use sentinel_video_receiver.Server.Stream.Content.{Writes, Started, back_nals, on_unit-Holds}
use sentinel_video_receiver.Server.Stream.Prerolls.{preroll_nals}

program : Unit {0}
unfolding index slice be16 be32 Rtp.skip_csrc Rtp.skip_extension Rtp.strip_padding Rtp.parse
    nal_type_from_annexb annexb_from_raw_nal join safe_name Writer.new_writer Writer.create
    Writer.write_pending Writer.flush_pending Writer.write_nal write_nals attempts
    write_active_clip_nal_with_retry start scan_nals build_access_unit drop_input prune_front
    prune_ring should_finalize_clip clip_name write_preroll_unit write_preroll try_start_clip
    write_active lose_input on_gap on_error on_motion admit push_ring back start_pending write_back
    on_unit on_marker on_pushed on_packet on_parsed on_message round rounds Depacketizer.new
    Depacketizer.reset Depacketizer.push_rtp_payload
program = tt

abbrev config : StreamConfig
config = record {
  stream_id = 7;
  clip_dir = b'd' ∷ [];
  ring_secs = 10;
  post_secs = 5;
  stale_part_secs = 60;
  max_clip_secs = some 60;
  clip_write_retry_count = 0;
  stale_secs = 5;
}

abbrev sidecar_none : ClipSidecar → Bytes
sidecar_none sidecar = []

abbrev health_none : StreamHealthSnapshot → Bytes
health_none snapshot = []

abbrev nal : ℕ → ℕ → Bytes
nal header body = 0 ∷ 0 ∷ 0 ∷ 1 ∷ header ∷ body ∷ []

abbrev slice_unit : AccessUnit
slice_unit = record { ts = seconds 1; nals = nal 65 2 ∷ []; has_idr = false }

abbrev idr_unit : AccessUnit
idr_unit = record { ts = seconds 12; nals = nal 101 1 ∷ []; has_idr = true }

abbrev reads : Reads
reads = record {
  received_utc = 0;
  error_utc = 0;
  unit_at = seconds 12;
  unit_utc = 0;
  pruned_at = seconds 12;
  clip = record { stamp = b't' ∷ []; utc = 0; now = seconds 12 };
  tick_at = seconds 12;
  ended_utc = 0;
  health_at = 0;
  health_utc = 0;
}

-- In sync, with an IDR unit in the snapshot of the clip that is pending.
abbrev pending : StreamState
pending = record start {
  synced = true;
  sps = some (nal 103 1);
  pps = some (nal 104 1);
  ring = slice_unit ∷ [];
  clip_pending = true;
  pending_ring_snapshot = some (slice_unit ∷ idr_unit ∷ []);
}

prune_ring-young_example :
    prune_ring (seconds 12) 10 (slice_unit ∷ idr_unit ∷ [])
    ≡ young (seconds 12) (seconds 10) (slice_unit ∷ idr_unit ∷ [])
prune_ring-young_example =
    prune_ring-young (seconds 12) 10 (slice_unit ∷ idr_unit ∷ []) ((omega arith, tt), (tt, tt))

abbrev rtp_packet : ℕ → Bool → Bytes → Bytes
rtp_packet seq marker payload =
    128 ∷ (if marker then 224 else 96) ∷ 0 ∷ seq ∷ 0 ∷ 0 ∷ 0 ∷ 9 ∷ 0 ∷ 0 ∷ 0 ∷ 1 ∷ payload

-- A gap, then parameter sets and an IDR slice as one access unit, and a motion.
abbrev events : List (Reads × Event)
events =
    (reads, message (gap 1 3))
    ∷ (reads, message (rtp (rtp_packet 1 false (103 ∷ 1 ∷ []))))
    ∷ (reads, message (rtp (rtp_packet 2 false (104 ∷ 1 ∷ []))))
    ∷ (reads, message (rtp (rtp_packet 3 true (101 ∷ 1 ∷ []))))
    ∷ (reads, message (motion (b'm' ∷ []) true []))
    ∷ []

-- The unit of these events enters the ring, with the parameter sets in front.
units_entered :
    units (rounds_log memory_files sidecar_none health_none config events (no_files, start))
    ≡ record {
      ts = seconds 12;
      nals = nal 103 1 ∷ nal 104 1 ∷ nal 103 1 ∷ nal 104 1 ∷ nal 101 1 ∷ [];
      has_idr = true;
    }
      ∷ []
unfolding program
units_entered = refl

-- A clip that begins with a slice when there is no IDR slice in the snapshot.
abbrev after : Memory × StreamState
after =
    (on_unit memory_files sidecar_none health_none config reads slice_unit (no_files, pending)).0

on_unit-Holds_example :
    let preroll =
      concat (preroll_nals pending.sps pending.pps (or_empty pending.pending_ring_snapshot)) in
    let last = back_nals (back after.1.ring) in
    (after.1.clip_pending ≡ false)
    × Started memory_files preroll last after.0 after.1.clip
    × Writes memory_files (preroll ++ concat last) after.0 after.1.clip
unfolding program
on_unit-Holds_example =
    on_unit-Holds memory_files sidecar_none health_none config reads slice_unit no_files pending
      refl refl refl refl refl
