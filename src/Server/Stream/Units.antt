-- ===== src/Server/Stream/Units.antt =====
-- The invariant of `run_stream` in sentinel_rtp_cam/src/server_pipeline.rs, where an access unit ends.
use sentinel_video_receiver.Prelude.{
  ℕ, ◌≤◌, ◌≡◌, refl, arith, true, false, Option, none, some, List, [], ◌∷◌, ◌++◌, Bytes,
}
use sentinel_video_receiver.Clip.Files.{ClipFiles}
use sentinel_video_receiver.Live.Stream.{has_idr, is_some}
use sentinel_video_receiver.Server.Health.{StreamConfig, StreamHealthSnapshot}
use sentinel_video_receiver.Server.Stream.{
  AccessUnit, StreamState, Found, scan_nals, build_access_unit, ClipState,
}
use sentinel_video_receiver.Server.Stream.Clips.{ClipSidecar}
use sentinel_video_receiver.Server.Stream.History.{Entry, entered, Admissible}
use sentinel_video_receiver.Server.Stream.Log.{admitted_log, marker_log}
use sentinel_video_receiver.Server.Stream.Messages.{
  Reads, admit, push_ring, back, start_pending, on_admitted, write_back, on_unit, on_marker,
}
use sentinel_video_receiver.Server.Stream.Invariant.{
  WellFormed, scan_nals_lem, admit-Admissible, push_ring-WellFormed, WellFormed-quiet,
}

-- The clock goes forward within a round.
abbrev pub InOrder : ℕ → Reads → Type 0
InOrder now reads = (now ≤ reads.unit_at) × (reads.unit_at ≤ reads.pruned_at)

module _ (f : ClipFiles) (sidecar_json : ClipSidecar → Bytes)
    (health_json : StreamHealthSnapshot → Bytes) (cfg : StreamConfig) (now : ℕ)
    (log : List Entry) where
  start_pending-WellFormed :
      (t : ℕ) (log' : List Entry) (reads : Reads) (s : f.State) (p : StreamState)
      → WellFormed t cfg.ring_secs log' p
      → WellFormed t cfg.ring_secs log'
          (start_pending f sidecar_json health_json cfg reads (s, p)).0.1
  unfolding start_pending
  start_pending-WellFormed t log' reads s p w = ground (arith, w)

  write_back-WellFormed :
      (t : ℕ) (log' : List Entry) (s : f.State) (p : StreamState) (clip : Option ClipState)
      (au : Option AccessUnit)
      → p.clip ≡ clip
      → WellFormed t cfg.ring_secs log' p
      → WellFormed t cfg.ring_secs log' (write_back f sidecar_json health_json cfg clip au (s, p)).1
  unfolding write_back
  write_back-WellFormed t log' s p none au e w = w
  write_back-WellFormed t log' s p (some cs) none e w = w
  write_back-WellFormed t log' s p (some cs) (some au) e w = ground (arith, e, w)

  on_unit-WellFormed :
      (reads : Reads) (au : AccessUnit) (s : f.State) (p : StreamState)
      → now ≤ au.ts
      → au.ts ≤ reads.pruned_at
      → Admissible p.synced au
      → (p.synced ≡ false → (is_some p.sps ≡ true) × (is_some p.pps ≡ true))
      → WellFormed now cfg.ring_secs log p
      → WellFormed reads.pruned_at cfg.ring_secs
          (log ++ (entered reads.pruned_at au ∷ []))
          (on_unit f sidecar_json health_json cfg reads au (s, p)).0.1
  unfolding on_unit
  on_unit-WellFormed reads au s p le le' a known w =
      let t = reads.pruned_at in
      let log' = log ++ (entered t au ∷ []) in
      let p₁ = push_ring reads cfg.ring_secs au p in
      let (s₂, p₂) = (start_pending f sidecar_json health_json cfg reads (s, p₁)).0 in
      let w₁ = push_ring-WellFormed now cfg.ring_secs log reads au p le le' a known w in
      let w₂ = start_pending-WellFormed t log' reads s p₁ w₁ in
      ground (arith, w₂, write_back-WellFormed t log' s₂ p₂ p₂.clip (back p₂.ring) refl w₂)

  on_admitted-WellFormed :
      (reads : Reads) (au : AccessUnit) (admitted : Option AccessUnit) (s : f.State)
      (p : StreamState)
      → admit p.synced au p.sps p.pps ≡ admitted
      → au.has_idr ≡ has_idr au.nals
      → now ≤ au.ts
      → au.ts ≤ reads.pruned_at
      → WellFormed now cfg.ring_secs log p
      → WellFormed reads.pruned_at cfg.ring_secs
          (log ++ admitted_log reads admitted)
          (on_admitted f sidecar_json health_json cfg reads admitted (s, p)).0.1
  on_admitted-WellFormed reads au none s p e idr le le' w =
      WellFormed-quiet now cfg.ring_secs log reads.pruned_at p (omega arith) w
  on_admitted-WellFormed reads au (some au') s p e idr le le' w =
      let (a, ts, known) = admit-Admissible p.synced au p.sps p.pps w.sps_lem w.pps_lem idr e in
      on_unit-WellFormed reads au' s p (omega (arith, ts)) (omega (arith, ts)) a known w

  pub on_marker-WellFormed :
      (reads : Reads) (s : f.State) (p : StreamState)
      → InOrder now reads
      → WellFormed now cfg.ring_secs log p
      → WellFormed reads.pruned_at cfg.ring_secs
          (log ++ marker_log reads p)
          (on_marker f sidecar_json health_json cfg reads (s, p)).0.1
  unfolding on_marker build_access_unit
  on_marker-WellFormed reads s p (le, le') w =
      let au : AccessUnit = (build_access_unit reads.unit_at p.current_au p.sps p.pps).0 in
      let found : Found = record { sps = p.sps; pps = p.pps; has_idr = false } in
      let found' = scan_nals p.current_au found in
      let (h, k, idr, keep_sps, keep_pps) = scan_nals_lem p.current_au found w.sps_lem w.pps_lem in
      let p' : StreamState = record p { sps = found'.sps; pps = found'.pps; current_au = [] } in
      let w' : WellFormed now cfg.ring_secs log p' = record {
        sps_lem = h;
        pps_lem = k;
        synced_lem = λ e. let (a, b) = w.synced_lem e in (keep_sps a, keep_pps b);
        history_lem = w.history_lem;
        pending_lem = w.pending_lem;
        snapshot_lem = w.snapshot_lem;
      } in
      let admitted = admit p'.synced au p'.sps p'.pps in
      ground (
        arith,
        WellFormed-quiet now cfg.ring_secs log reads.pruned_at p (omega (arith, le, le')) w,
        on_admitted-WellFormed reads au admitted s p' refl idr le le' w',
      )
