-- ===== src/Server/Stream/Content.antt =====
-- What the clips of `run_stream` in sentinel_rtp_cam/src/server_pipeline.rs begin with.
use sentinel_video_receiver.Prelude.{
  zero, ◌*◌, ◌≡◌, refl, arith, true, false, ◌&&◌, Option, none, some, List, [], ◌∷◌, ◌++◌,
  append_assoc, append-nil, Bytes, Text, subst,
}
use sentinel_video_receiver.Clip.Files.{ClipFiles}
use sentinel_video_receiver.Clip.Paths.{join, part}
use sentinel_video_receiver.Clip.Writer
use sentinel_video_receiver.Clip.Writer.{ClipWriter}
use sentinel_video_receiver.Clip.Writer.Content.{Holds, concat, create-Holds, write_nal-Holds}
use sentinel_video_receiver.Clip.Writer.Retry.{attempts, write_active_clip_nal_with_retry}
use sentinel_video_receiver.Live.Stream.{is_some}
use sentinel_video_receiver.Server.Health.{StreamConfig, StreamHealthSnapshot}
use sentinel_video_receiver.Server.Stream.{AccessUnit, ClipState, StreamState}
use sentinel_video_receiver.Server.Stream.Messages.{
  Reads, push_ring, back, start_pending, write_back, on_unit,
}
use sentinel_video_receiver.Server.Stream.Clips.{
  ClipSidecar, ClipReads, or_empty, clip_name, try_start_clip, write_active,
}
use sentinel_video_receiver.Server.Stream.Prerolls.{preroll_nals, write_preroll_lem}

module _ (f : ClipFiles) where
  -- A clip that holds the bytes, or none, which is only for want of a parameter set.
  abbrev pub StartsWith : Bytes → Option Bytes → Option Bytes → f.State → Option ClipState → Type 0
  StartsWith given sps pps s none = (is_some sps && is_some pps) ≡ false
  StartsWith given sps pps s (some cs) = Holds f given s cs.writer

  try_start_clip-Holds :
      (cfg : StreamConfig) (reads : ClipReads) (rule : Text) (snapshot : Option (List AccessUnit))
      (sps pps : Option Bytes) (s : f.State)
      → (try_start_clip f cfg reads rule snapshot sps pps s).1 ≡ none
      → let (s', clip) = (try_start_clip f cfg reads rule snapshot sps pps s).0 in
        StartsWith (concat (preroll_nals sps pps (or_empty snapshot))) sps pps s' clip
  unfolding try_start_clip
  try_start_clip-Holds cfg reads rule snapshot sps pps s e =
      let file_path = join cfg.clip_dir (clip_name reads.stamp cfg.stream_id rule) in
      let part_path = file_path ++ (b'.' ∷ part) in
      let (s₀, w₀) = (Writer.create f s part_path file_path (256 * 1024)).0 in
      ground (
        arith,
        e,
        create-Holds f s part_path file_path (256 * 1024),
        write_preroll_lem f sps pps (or_empty snapshot) []
            (record { found = false; wrote_any = false }) s₀ w₀ refl,
      )

  -- The clip, if there is one, holds the bytes.
  abbrev pub Writes : Bytes → f.State → Option ClipState → Type 0
  Writes given s none = Unit
  Writes given s (some cs) = Holds f given s cs.writer

  -- With no retries, what is left of a clip holds the NALs behind what it held.
  write_active-Holds :
      (nals : List Bytes) (given : Bytes) (s : f.State) (cs : ClipState) {cs' : ClipState}
      → Holds f given s cs.writer
      → (write_active f zero nals (s, cs)).1 ≡ some cs'
      → Holds f (given ++ concat nals) (write_active f zero nals (s, cs)).0 cs'.writer
  unfolding write_active write_active_clip_nal_with_retry attempts
  write_active-Holds [] given s cs {cs'} h e = ground (arith, e, h, append-nil given)
  write_active-Holds (nal ∷ nals) given s cs {cs'} h e =
      let (s₁, w₁) = (Writer.write_nal f nal (s, cs.writer)).0 in
      ground (
        arith,
        e,
        write_nal-Holds f given nal s cs.writer h,
        write_active-Holds nals (given ++ nal) s₁ (record cs { writer = w₁ }) {cs' = cs'},
        append_assoc given nal (concat nals),
      )

-- The NALs of the unit at the back of the ring, if there is one.
abbrev pub back_nals : Option AccessUnit → List Bytes
back_nals none = []
back_nals (some au) = au.nals

write_active-Writes :
    (f : ClipFiles) (nals : List Bytes) (given : Bytes) (s : f.State) (cs : ClipState)
    (left : Option ClipState)
    → Holds f given s cs.writer
    → (write_active f zero nals (s, cs)).1 ≡ left
    → Writes f (given ++ concat nals) (write_active f zero nals (s, cs)).0 left
write_active-Writes f nals given s cs none h e = tt
write_active-Writes f nals given s cs (some cs') h e = write_active-Holds f nals given s cs h e

-- A clip was started that held the bytes `given`; then the NALs were written to it, one after the other
-- and without retries, and these writes left the files and the clip as they are.
pub record Started (f : ClipFiles) (given : Bytes) (nals : List Bytes) (s : f.State)
    (clip : Option ClipState) : Type 0 where
  pub started : ClipState
  pub state : f.State
  pub started_lem : Holds f given state started.writer
  pub written_lem : write_active f zero nals (state, started) ≡ (s, clip)

Started-Writes :
    (f : ClipFiles) (given : Bytes) (nals : List Bytes) (s : f.State) (clip : Option ClipState)
    → Started f given nals s clip
    → Writes f (given ++ concat nals) s clip
Started-Writes f given nals s clip h =
    subst (λ (r : f.State × Option ClipState). Writes f (given ++ concat nals) r.0 r.1)
      h.written_lem (write_active-Writes f nals given h.state h.started _ h.started_lem refl)

module _ (f : ClipFiles) (sidecar_json : ClipSidecar → Bytes)
    (health_json : StreamHealthSnapshot → Bytes) (cfg : StreamConfig) where
  write_back-Started :
      (given : Bytes) (clip : Option ClipState) (au : Option AccessUnit) (s : f.State)
      (p : StreamState)
      → cfg.clip_write_retry_count ≡ 0
      → p.clip ≡ clip
      → is_some clip ≡ true
      → Writes f given s clip
      → let (s', p') = write_back f sidecar_json health_json cfg clip au (s, p) in
        Started f given (back_nals au) s' p'.clip
        × (p'.ring ≡ p.ring)
        × (p'.clip_pending ≡ p.clip_pending)
  unfolding write_back write_active
  write_back-Started given none au s p retries e i h = absurd (ground (arith, i))
  write_back-Started given (some cs) none s p retries e i h =
      (record { started = cs; state = s; started_lem = h; written_lem = rw e refl }, refl, refl)
  write_back-Started given (some cs) (some au) s p retries e i h = (
    record { started = cs; state = s; started_lem = h; written_lem = rw retries refl },
    refl,
    refl,
  )

  start_pending-Writes :
      (reads : Reads) (s : f.State) (p : StreamState)
      → p.clip_pending ≡ true
      → p.clip ≡ none
      → (is_some p.sps && is_some p.pps) ≡ true
      → (start_pending f sidecar_json health_json cfg reads (s, p)).1 ≡ none
      → let (s', p') = (start_pending f sidecar_json health_json cfg reads (s, p)).0 in
        Writes f (concat (preroll_nals p.sps p.pps (or_empty p.pending_ring_snapshot))) s' p'.clip
        × (is_some p'.clip ≡ true)
        × (p'.clip_pending ≡ false)
        × (p'.ring ≡ p.ring)
  unfolding start_pending
  start_pending-Writes reads s p pending idle known e = ground (
    arith,
    pending,
    idle,
    known,
    e,
    try_start_clip-Holds f cfg reads.clip p.pending_rule p.pending_ring_snapshot p.sps p.pps s,
  )

-- When a unit that enters the ring finds a clip pending, clip writes are not retried and no call on the
-- files by which a clip is started fails: the parameter sets being known, a clip starts, and is no longer
-- pending. It is given first the SPS and the PPS and the units of the snapshot from the first one with
-- an IDR slice on, or none of these if the snapshot has no such unit; then the unit at the back of the
-- ring, whether that has an IDR slice or not. What these last writes leave of the clip is the clip of
-- the stream, and if that is not none, its file and its pending bytes are just this, in this order.
pub on_unit-Holds :
    (f : ClipFiles) (sidecar_json : ClipSidecar → Bytes)
    (health_json : StreamHealthSnapshot → Bytes) (cfg : StreamConfig) (reads : Reads)
    (au : AccessUnit) (s : f.State) (p : StreamState)
    → cfg.clip_write_retry_count ≡ 0
    → p.clip_pending ≡ true
    → p.clip ≡ none
    → (is_some p.sps && is_some p.pps) ≡ true
    → (on_unit f sidecar_json health_json cfg reads au (s, p)).1 ≡ none
    → let (s', p') = (on_unit f sidecar_json health_json cfg reads au (s, p)).0 in
      let preroll = concat (preroll_nals p.sps p.pps (or_empty p.pending_ring_snapshot)) in
      let last = back_nals (back p'.ring) in
      (p'.clip_pending ≡ false)
      × Started f preroll last s' p'.clip
      × Writes f (preroll ++ concat last) s' p'.clip
unfolding on_unit push_ring
on_unit-Holds f sidecar_json health_json cfg reads au s p retries pending idle known e =
    let p₁ = push_ring reads cfg.ring_secs au p in
    let (s₂, p₂) = (start_pending f sidecar_json health_json cfg reads (s, p₁)).0 in
    let (s₃, p₃) = write_back f sidecar_json health_json cfg p₂.clip (back p₂.ring) (s₂, p₂) in
    let preroll = concat (preroll_nals p.sps p.pps (or_empty p.pending_ring_snapshot)) in
    ground (
      arith,
      e,
      start_pending-Writes f sidecar_json health_json cfg reads s p₁ pending idle known,
      write_back-Started f sidecar_json health_json cfg preroll p₂.clip (back p₂.ring) s₂ p₂ retries
          refl,
      Started-Writes f preroll (back_nals (back p₂.ring)) s₃ p₃.clip,
    )
