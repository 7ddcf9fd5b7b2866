-- ===== src/Live/Stream/Order.antt =====
-- What holds of the playlist and of the segment under way, whatever is received and whatever fails.
use sentinel_video_receiver.Prelude.{
  ℕ, ◌-◌, ◌<◌, ◌≡◌, refl, arith, false, not, ◌||◌, Option, none, some, [], ltb, Text,
}
use sentinel_video_receiver.H264.Depacketizer
use sentinel_video_receiver.H264.Depacketizer.{push_rtp_payload}
use sentinel_video_receiver.H264.SyncGate
use sentinel_video_receiver.Clip.Files.{ClipFiles}
use sentinel_video_receiver.Live.Publisher.{publish}
use sentinel_video_receiver.Live.Playlist.{PlaylistState}
use sentinel_video_receiver.Live.Playlist.Window
use sentinel_video_receiver.Live.Playlist.Window.{
  Between, Between-higher, new-WellFormed, push_segment-WellFormed,
}
use sentinel_video_receiver.Live.Stream.{
  CurrentSegment, Pipeline, LivePipelineV2Config, is_some, drop_input, finalize_taken,
  finalize_segment, handle_discontinuity, on_gap,
}

-- The segment under way has a number that was handed out, above those listed.
abbrev pub SegmentOk : PlaylistState → Option CurrentSegment → Type 0
SegmentOk playlist none = Unit
SegmentOk playlist (some segment) =
    Between 1 segment.seq playlist.entries × (segment.seq < playlist.next_segment_seq)

pub record Ordered (p : Pipeline) : Type 0 where
  pub playlist_lem : Window.WellFormed p.playlist
  pub segment_lem : SegmentOk p.playlist p.current_segment

module _ (f : ClipFiles) (print_secs : ℕ → Text) (cfg : LivePipelineV2Config) where
  finalize_taken-Ordered :
      (now : ℕ) (segment : CurrentSegment) (s : f.State) (p : Pipeline)
      → Window.WellFormed p.playlist
      → SegmentOk p.playlist (some segment)
      → p.current_segment ≡ none
      → Ordered (finalize_taken f print_secs cfg now segment (s, p)).0.0.1
  unfolding finalize_taken
  finalize_taken-Ordered now segment s p wf (h, k) e =
      let s₁ = (publish f (s, segment.writer.publisher)).0 in
      ground (
        arith,
        wf,
        e,
        push_segment-WellFormed f print_secs cfg.session_output_root segment.seq
            (now - segment.started_at) segment.discontinuity s₁ p.playlist wf h k,
      )

  finalize_taken_lem :
      (now : ℕ) (segment : CurrentSegment) (s : f.State) (p : Pipeline)
      → let p' = (finalize_taken f print_secs cfg now segment (s, p)).0.0.1 in
        (p'.current_segment ≡ p.current_segment)
        × (p'.pending_discontinuity ≡ p.pending_discontinuity)
  unfolding finalize_taken
  finalize_taken_lem now segment s p = ground arith

  finalize-Ordered :
      (now : ℕ) (s : f.State) (p : Pipeline) (segment : Option CurrentSegment)
      → p.current_segment ≡ segment
      → Ordered p
      → Ordered (finalize_segment f print_secs cfg now (s, p)).0.0.1
  unfolding finalize_segment
  finalize-Ordered now s p none h o = ground (arith, h, o)
  finalize-Ordered now s p (some segment) h o =
      let p₀ : Pipeline = record p { current_segment = none } in
      ground (arith, h, o, finalize_taken-Ordered now segment s p₀ o.playlist_lem)

  finalize_lem :
      (now : ℕ) (s : f.State) (p : Pipeline) (segment : Option CurrentSegment)
      → p.current_segment ≡ segment
      → let p' = (finalize_segment f print_secs cfg now (s, p)).0.0.1 in
        (p'.current_segment ≡ none) × (p'.pending_discontinuity ≡ p.pending_discontinuity)
  unfolding finalize_segment
  finalize_lem now s p none h = ground (arith, h)
  finalize_lem now s p (some segment) h =
      let p₀ : Pipeline = record p { current_segment = none } in
      ground (arith, h, finalize_taken_lem now segment s p₀)

  pub finalize_segment-Ordered :
      (now : ℕ) (s : f.State) (p : Pipeline)
      → Ordered p
      → Ordered (finalize_segment f print_secs cfg now (s, p)).0.0.1
  finalize_segment-Ordered now s p o = finalize-Ordered now s p p.current_segment refl o

  pub handle_discontinuity-Ordered :
      (now : ℕ) (s : f.State) (p : Pipeline)
      → Ordered p
      → Ordered (handle_discontinuity f print_secs cfg now (s, p)).0.1
  unfolding handle_discontinuity
  handle_discontinuity-Ordered now s p o = ground (arith, finalize_segment-Ordered now s p o)

  pub drop_input-Ordered : (p : Pipeline) → Ordered p → Ordered (drop_input p)
  unfolding drop_input
  drop_input-Ordered p o = record { playlist_lem = o.playlist_lem; segment_lem = o.segment_lem }

  pub on_gap-Ordered :
      (now : ℕ) (s : f.State) (p : Pipeline)
      → Ordered p
      → Ordered (on_gap f print_secs cfg now (s, p)).0.1
  unfolding on_gap drop_input
  on_gap-Ordered now s p o = ground (arith, handle_discontinuity-Ordered now s p o)

  -- After `on_gap`, with no error of the files: no segment is under way, no NAL of the access unit at hand
  -- and no fragment is kept, the gate is closed if it asks for a sync point, and any packet may come
  -- next; a discontinuity is pending if one was, a segment had been published or one was under way.
  pub on_gap_lem :
      (now : ℕ) (s : f.State) (p : Pipeline)
      → (on_gap f print_secs cfg now (s, p)).1 ≡ none
      → let p' = (on_gap f print_secs cfg now (s, p)).0.1 in
        (p'.current_segment ≡ none)
        × (p'.current_au_nals ≡ [])
        × (p'.current_au_rtp_ts ≡ none)
        × (p'.expected_seq ≡ none)
        × (p'.dep ≡ record { fu_active = false; fu_buf = [] })
        × (p'.sync_gate.synced ≡ not p'.sync_gate.require_idr_sync)
        × (p'.pending_discontinuity ≡ (
            p.pending_discontinuity || (ltb 0 p.latest_segment_seq || is_some p.current_segment)))
  unfolding on_gap drop_input handle_discontinuity Depacketizer.reset SyncGate.reset
  on_gap_lem now s p e = ground (arith, e, finalize_lem now s p p.current_segment refl)
