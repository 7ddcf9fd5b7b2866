-- ===== src/Server/Stream.antt =====
-- `run_stream` of sentinel_rtp_cam/src/server_pipeline.rs: its variables, access units and the ring.
-- Instants and durations are nanoseconds of one clock.
pub mod Ring
pub mod History
pub mod Clips
pub mod Messages
pub mod Log
pub mod Invariant
pub mod Units
pub mod Preserved
pub mod Prerolls
pub mod Content
use sentinel_video_receiver.Prelude.{
  ℕ, ◌-◌, Bool, true, false, Option, none, some, List, [], ◌∷◌, ltb, leb, ◌==◌, ◌||◌, if◌then◌else◌,
  Bytes, Text,
}
use sentinel_video_receiver.H264.Nal.{nal_type_from_annexb}
use sentinel_video_receiver.H264.Depacketizer
use sentinel_video_receiver.H264.Depacketizer.{H264Depacketizer}
use sentinel_video_receiver.Clip.Writer.{ClipWriter}
use sentinel_video_receiver.Clip.Recorder.{seconds}
use sentinel_video_receiver.Server.Health.{StreamRuntimeStats, no_stats}

pub data StreamMsg : Type 0 where
  rtp : Bytes → StreamMsg
  gap : ℕ → ℕ → StreamMsg
  motion : Text → Bool → Text → StreamMsg

pub record AccessUnit : Type 0 where
  pub ts : ℕ
  pub nals : List Bytes
  pub has_idr : Bool

pub record ClipState : Type 0 where
  pub writer : ClipWriter
  pub started_at : ℕ
  pub rule : Text
  pub stop_at : ℕ
  pub hard_stop_at : Option ℕ

-- The variables of `run_stream`.
pub record StreamState : Type 0 where
  pub dep : H264Depacketizer
  pub expected_seq : Option ℕ
  pub synced : Bool
  pub sps : Option Bytes
  pub pps : Option Bytes
  pub ring : List AccessUnit
  pub current_au : List Bytes
  pub clip : Option ClipState
  pub clip_pending : Bool
  pub pending_rule : Text
  pub pending_ring_snapshot : Option (List AccessUnit)
  pub stats : StreamRuntimeStats

unfoldable pub start : StreamState
start = record {
  dep = Depacketizer.new;
  expected_seq = none;
  synced = false;
  sps = none;
  pps = none;
  ring = [];
  current_au = [];
  clip = none;
  clip_pending = false;
  pending_rule = [];
  pending_ring_snapshot = none;
  stats = no_stats;
}

-- The parameter sets known, and whether there was an IDR slice.
pub record Found : Type 0 where
  pub sps : Option Bytes
  pub pps : Option Bytes
  pub has_idr : Bool

-- The tests on `nt`.
abbrev pub note_nal : Option ℕ → Bytes → Found → Found
note_nal none nal found = found
note_nal (some nt) nal found =
    if nt == 7
    then record found { sps = some nal }
    else if nt == 8
    then record found { pps = some nal }
    else if nt == 5
    then record found { has_idr = true }
    else found

-- The `for` of `build_access_unit`; all NALs are kept.
unfoldable pub scan_nals : List Bytes → Found → Found
scan_nals [] found = found
scan_nals (nal ∷ nals) found = scan_nals nals (note_nal (nal_type_from_annexb nal) nal found)

-- `build_access_unit`, with the parameter sets that it leaves.
unfoldable pub build_access_unit : ℕ → List Bytes → Option Bytes → Option Bytes → AccessUnit × Found
build_access_unit now nals sps pps =
    let found = scan_nals nals (record { sps = sps; pps = pps; has_idr = false }) in
    (record { ts = now; nals = nals; has_idr = found.has_idr }, found)

-- The `while` of `prune_ring`; `keep` is the duration.
unfoldable pub prune_front : ℕ → ℕ → List AccessUnit → List AccessUnit
prune_front now keep [] = []
prune_front now keep (front ∷ ring) =
    let rest = prune_front now keep ring in if ltb keep (now - front.ts) then rest else front ∷ ring

unfoldable pub prune_ring : ℕ → ℕ → List AccessUnit → List AccessUnit
prune_ring now ring_secs ring = prune_front now (seconds ring_secs) ring

abbrev hard_due : ℕ → Option ℕ → Bool
hard_due now none = false
hard_due now (some t) = leb t now

unfoldable pub should_finalize_clip : ℕ → ℕ → Option ℕ → Bool
should_finalize_clip now stop_at hard_stop_at = leb stop_at now || hard_due now hard_stop_at

-- `dep.reset()`, `synced` and the access unit.
unfoldable pub drop_input : StreamState → StreamState
drop_input p = record p { dep = Depacketizer.reset p.dep; synced = false; current_au = [] }
