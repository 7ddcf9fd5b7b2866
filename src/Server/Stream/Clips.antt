-- ===== src/Server/Stream/Clips.antt =====
-- The clips of `run_stream` in sentinel_rtp_cam/src/server_pipeline.rs: `try_start_clip`,
-- `finalize_clip`, `cleanup_stale_parts` and the writing of the current unit.
use sentinel_video_receiver.Prelude.{
  ℕ, ◌+◌, ◌-◌, ◌*◌, Bool, true, false, Option, none, some, List, [], ◌∷◌, ◌++◌, if◌then◌else◌, not,
  ◌&&◌, Bytes, Text,
}
use sentinel_video_receiver.Clip.Files.{ClipFiles, and_then}
use sentinel_video_receiver.Clip.Paths.{
  join, file_name, with_extension, safe_name, h264, part, json,
}
use sentinel_video_receiver.Clip.Writer
use sentinel_video_receiver.Clip.Writer.{ClipWriter}
use sentinel_video_receiver.Clip.Writer.Content.{write_nals}
use sentinel_video_receiver.Clip.Writer.Retry.{write_active_clip_nal_with_retry}
use sentinel_video_receiver.Clip.Recorder.{seconds}
use sentinel_video_receiver.Clip.Recorder.Cleanup.{delete_stale}
use sentinel_video_receiver.Clip.Recorder.Stop.{ℤ, num_seconds}
use sentinel_video_receiver.Live.Playlist.{decimal}
use sentinel_video_receiver.Live.Stream.{is_some}
use sentinel_video_receiver.Server.Health.{StreamConfig}
use sentinel_video_receiver.Server.Stream.{AccessUnit, ClipState}

pub record ClipSidecar : Type 0 where
  pub stream_id : ℕ
  pub rule : Text
  pub filename : Text
  pub started_at : ℕ
  pub ended_at : ℕ
  pub duration_secs : ℤ

-- "{ts}_{stream_id}_{safe_rule}.h264"
unfoldable pub clip_name : Text → ℕ → Text → Text
clip_name stamp stream_id rule =
    stamp ++ (b'_' ∷ (decimal stream_id ++ (b'_' ∷ (safe_name rule ++ (b'.' ∷ h264)))))

-- The reads of the clocks when a clip is started: `Utc::now()` as text, `Utc::now()` and
-- `Instant::now()`.
pub record ClipReads : Type 0 where
  pub stamp : Text
  pub utc : ℕ
  pub now : ℕ

-- The parameter sets in front of the first IDR unit, if both are known.
abbrev pub param_sets : Option Bytes → Option Bytes → List Bytes
param_sets (some s) (some p) = s ∷ p ∷ []
param_sets _ _ = []

abbrev hard_stop : ℕ → Option ℕ → Option ℕ
hard_stop now none = none
hard_stop now (some secs) = some (now + seconds secs)

abbrev pub or_empty : Option (List AccessUnit) → List AccessUnit
or_empty none = []
or_empty (some snapshot) = snapshot

-- What the `for` over the snapshot keeps between its rounds.
pub record Preroll : Type 0 where
  pub found : Bool
  pub wrote_any : Bool

unfoldable pub sidecar_of : ℕ → ClipState → ℕ → ClipSidecar
sidecar_of stream_id cs ended_at = record {
  stream_id = stream_id;
  rule = cs.rule;
  filename = file_name cs.writer.final_path;
  started_at = cs.started_at;
  ended_at = ended_at;
  duration_secs = num_seconds ended_at cs.started_at;
}

module _ (f : ClipFiles) where
  -- The NALs of one unit of the snapshot.
  unfoldable pub write_preroll_unit :
      List Bytes
      → Preroll
      → f.State × ClipWriter
      → ((f.State × ClipWriter) × Preroll) × Option f.Error
  write_preroll_unit [] pre sw = ((sw, pre), none)
  write_preroll_unit (nal ∷ nals) pre sw =
      let (sw', e) = Writer.write_nal f nal sw in
      let rest = write_preroll_unit nals (record pre { wrote_any = true }) sw' in
      elim e [ some e ↦ ((sw', pre), some e) | none ↦ rest ]

  -- The `for` over the snapshot.
  unfoldable pub write_preroll :
      Option Bytes
      → Option Bytes
      → List AccessUnit
      → Preroll
      → f.State × ClipWriter
      → ((f.State × ClipWriter) × Preroll) × Option f.Error
  write_preroll sps pps [] pre sw = ((sw, pre), none)
  write_preroll sps pps (au ∷ aus) pre sw =
      if pre.found
      then (and_then (write_preroll_unit au.nals pre sw)
          λ (sw, pre). write_preroll sps pps aus pre sw)
      else if au.has_idr
      then (let (sw', e) = write_nals f (param_sets sps pps) sw in
          and_then ((sw', record pre { found = true }), e)
            λ (sw, pre).
              and_then (write_preroll_unit au.nals pre sw)
                λ (sw, pre). write_preroll sps pps aus pre sw)
      else write_preroll sps pps aus pre sw

  -- From `if !wrote_any` on.
  abbrev started :
      StreamConfig
      → ClipReads
      → Text
      → Option Bytes
      → Option Bytes
      → Preroll
      → ClipWriter
      → Option ClipState
  started cfg reads rule sps pps pre writer =
      if not pre.wrote_any && not (is_some sps && is_some pps)
      then none
      else some (record {
        writer = writer;
        started_at = reads.utc;
        rule = rule;
        stop_at = reads.now + seconds cfg.post_secs;
        hard_stop_at = hard_stop reads.now cfg.max_clip_secs;
      })

  unfoldable pub try_start_clip :
      StreamConfig
      → ClipReads
      → Text
      → Option (List AccessUnit)
      → Option Bytes
      → Option Bytes
      → f.State
      → (f.State × Option ClipState) × Option f.Error
  try_start_clip cfg reads rule snapshot sps pps s =
      let file_path = join cfg.clip_dir (clip_name reads.stamp cfg.stream_id rule) in
      let (sw₀, e₀) = Writer.create f s (file_path ++ (b'.' ∷ part)) file_path (256 * 1024) in
      let pre₀ : Preroll = record { found = false; wrote_any = false } in
      let (((s₁, writer), pre), e) =
        and_then ((sw₀, pre₀), e₀) λ (sw, pre). write_preroll sps pps (or_empty snapshot) pre sw in
      elim e [
        | some e ↦ ((s₁, none), some e)
        | none ↦ ((s₁, started cfg reads rule sps pps pre writer), none)
      ]

  -- The `for` over the NALs of the unit, and what is left of the clip.
  unfoldable pub write_active : ℕ → List Bytes → f.State × ClipState → f.State × Option ClipState
  write_active retry_count [] (s, cs) = (s, some cs)
  write_active retry_count (nal ∷ nals) (s, cs) =
      let ((s', writer), done) =
        write_active_clip_nal_with_retry f retry_count nal (s, cs.writer) in
      let rest = write_active retry_count nals (s', record cs { writer = writer }) in
      if done then rest else (s', none)

  -- `finalize_clip`, of a clip that is there.
  unfoldable pub finalize_clip :
      (ClipSidecar → Bytes) → ℕ → ℕ → f.State × ClipState → f.State × Option f.Error
  finalize_clip sidecar_json stream_id utc (s, cs) =
      let ((s', writer), e) = Writer.finalize f (s, cs.writer) in
      and_then (s', e)
        λ s.
          f.write s (with_extension writer.final_path json)
            (sidecar_json (sidecar_of stream_id cs utc))

  -- `cleanup_stale_parts`; a directory that cannot be listed is an error. Entries that are directories are
  -- not told apart: `remove_file` fails for these, and its error is dropped.
  unfoldable pub cleanup_stale_parts : StreamConfig → ℕ → f.State → Option f.State
  cleanup_stale_parts cfg system s = elim (f.read_dir s cfg.clip_dir) [
    | none ↦ none
    | some entries ↦ some (delete_stale f (system - seconds cfg.stale_part_secs) s entries)
  ]
