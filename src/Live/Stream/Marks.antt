-- ===== src/Live/Stream/Marks.antt =====
-- Which segments of `run_stream_v2` in sentinel_rtp_cam/src/live/v2.rs are marked as discontinuities.
use sentinel_video_receiver.Prelude.{
  ℕ, ◌+◌, ◌%◌, ◌≡◌, refl, arith, Bool, Bool-cases, inl, inr, true, false, not, ◌||◌, ltb, Option,
  none, some, List, [], ◌∷◌, ok, err, panic, Bytes, Text, Outcome,
}
use sentinel_video_receiver.Rtp
use sentinel_video_receiver.Rtp.{RtpPacket, ParseError}
use sentinel_video_receiver.H264.Depacketizer.{Nals, push_rtp_payload}
use sentinel_video_receiver.Clip.Files.{ClipFiles}
use sentinel_video_receiver.Live.Publisher.{AccessUnit}
use sentinel_video_receiver.Live.Stream.{
  CurrentSegment, Pipeline, LivePipelineV2Config, Reads, StreamMsg, rtp, gap, motion, is_some,
  build_access_unit, should_rotate_segment, drop_input, finalize_taken, finalize_segment,
  handle_discontinuity, on_gap,
}
use sentinel_video_receiver.Live.Stream.Messages.{
  gated, or_ts, rotate, open_segment, write_unit, write_current, place_unit, on_marker, on_pushed,
  on_payload, on_parsed, on_packet, on_message, on_messages,
}

-- If a segment has been published, the one under way is marked, or the next one will be.
abbrev pub mark_of : Bool → Option CurrentSegment → Bool
mark_of pending none = pending
mark_of pending (some segment) = segment.discontinuity

abbrev pub marked : Pipeline → Bool
marked p = not (ltb 0 p.latest_segment_seq) || mark_of p.pending_discontinuity p.current_segment

-- A segment is under way, or the next one will be marked if one has been published.
abbrev pub covered : Pipeline → Bool
covered p =
    is_some p.current_segment || (not (ltb 0 p.latest_segment_seq) || p.pending_discontinuity)

module _ (f : ClipFiles) (print_secs : ℕ → Text) (cfg : LivePipelineV2Config) where
  finalize-latest :
      (now : ℕ) (s : f.State) (p : Pipeline) (segment : Option CurrentSegment)
      → p.current_segment ≡ segment
      → let p' = (finalize_segment f print_secs cfg now (s, p)).0.0.1 in
        (p'.current_segment ≡ none)
        × (p'.pending_discontinuity ≡ p.pending_discontinuity)
        × (is_some segment ≡ false → p'.latest_segment_seq ≡ p.latest_segment_seq)
  unfolding finalize_segment finalize_taken
  finalize-latest now s p none h = ground (arith, h)
  finalize-latest now s p (some segment) h = ground (arith, h)

  -- A discontinuity is marked.
  handle_discontinuity-marked :
      (now : ℕ) (s : f.State) (p : Pipeline)
      → covered p ≡ true
      → (handle_discontinuity f print_secs cfg now (s, p)).1 ≡ none
      → let p' = (handle_discontinuity f print_secs cfg now (s, p)).0.1 in
        (p'.current_segment ≡ none) × (marked p' ≡ true)
  unfolding handle_discontinuity
  handle_discontinuity-marked now s p c e =
      ground (arith, c, e, finalize-latest now s p p.current_segment refl)

  on_gap-marked :
      (now : ℕ) (s : f.State) (p : Pipeline)
      → covered p ≡ true
      → (on_gap f print_secs cfg now (s, p)).1 ≡ none
      → marked (on_gap f print_secs cfg now (s, p)).0.1 ≡ true
  unfolding on_gap drop_input
  on_gap-marked now s p c e = ground (arith, c, e, handle_discontinuity-marked now s p)

pub marked-covered : (p : Pipeline) → marked p ≡ true → covered p ≡ true
marked-covered p m = ground (arith, m)

module _ (f : ClipFiles) (print_secs : ℕ → Text) (pointer_json : Text → ℕ → Bytes)
    (cfg : LivePipelineV2Config) where
  -- A unit goes into the segment under way, which stays; or it opens one, which is marked.
  write_current-some :
      (au : AccessUnit) (segment : CurrentSegment) (s : f.State) (p : Pipeline)
      → p.current_segment ≡ some segment
      → (write_current f print_secs pointer_json cfg au (s, p)).1 ≡ none
      → let p' = (write_current f print_secs pointer_json cfg au (s, p)).0.1 in
        (is_some p'.current_segment ≡ true) × (marked p' ≡ marked p)
  unfolding write_unit
  write_current-some au segment s p h e = ground (arith, h, e)

  open_segment-marked :
      (reads : Reads) (s : f.State) (p : Pipeline)
      → (open_segment f print_secs pointer_json cfg reads (s, p)).1 ≡ none
      → let p' = (open_segment f print_secs pointer_json cfg reads (s, p)).0.1 in
        (is_some p'.current_segment ≡ true)
        × (mark_of false p'.current_segment ≡ p.pending_discontinuity)
        × (p'.latest_segment_seq ≡ p.latest_segment_seq)
  unfolding open_segment
  open_segment-marked reads s p e = ground (arith, e)

  write_opened :
      (au : AccessUnit) (s : f.State) (p : Pipeline) (segment : Option CurrentSegment)
      → p.current_segment ≡ segment
      → is_some segment ≡ true
      → (write_current f print_secs pointer_json cfg au (s, p)).1 ≡ none
      → let p' = (write_current f print_secs pointer_json cfg au (s, p)).0.1 in
        (is_some p'.current_segment ≡ true) × (marked p' ≡ marked p)
  write_opened au s p none h i e = absurd (ground (arith, i))
  write_opened au s p (some segment) h i e = write_current-some au segment s p h e

  place_unit_lem :
      (reads : Reads) (au : AccessUnit) (s : f.State) (p : Pipeline)
      → (place_unit f print_secs pointer_json cfg reads au (s, p)).1 ≡ none
      → let p' = (place_unit f print_secs pointer_json cfg reads au (s, p)).0.1 in
        ((is_some p.current_segment || au.has_idr) ≡ true → is_some p'.current_segment ≡ true)
        × (p.current_segment ≡ none → marked p ≡ true → marked p' ≡ true)
  unfolding place_unit
  place_unit_lem reads au s p e = elim (Bool-cases (is_some p.current_segment)) [
    | inl here ↦
        let (i, m) = write_opened au s p p.current_segment refl here (ground (arith, here, e)) in
        ground (arith, here, i)
    | inr absent ↦ elim (Bool-cases au.has_idr) [
      | inl idr ↦
          let (s₁, p₁) = (open_segment f print_secs pointer_json cfg reads (s, p)).0 in
          ground (
            arith,
            absent,
            idr,
            e,
            open_segment-marked reads s p,
            write_opened au s₁ p₁ p₁.current_segment refl,
          )
      | inr no_idr ↦ ground (arith, absent, no_idr)
    ]
  ]

  rotate_lem :
      (reads : Reads) (au : AccessUnit) (s : f.State) (p : Pipeline)
      (segment : Option CurrentSegment)
      → p.current_segment ≡ segment
      → let (s', p') = (rotate f print_secs pointer_json cfg reads au (s, p)).0 in
        (is_some segment ≡ false
          → (rotate f print_secs pointer_json cfg reads au (s, p)) ≡ ((s, p), none))
        × (is_some segment ≡ true → (is_some p'.current_segment || au.has_idr) ≡ true)
  unfolding rotate should_rotate_segment
  rotate_lem reads au s p none h = ground (arith, h)
  rotate_lem reads au s p (some segment) h = ground (arith, h)

  -- What every step keeps.
  abbrev pub Keeps : Pipeline → Pipeline → Type 0
  Keeps p p' =
      (covered p ≡ true → covered p' ≡ true)
      × (p.current_segment ≡ none → marked p ≡ true → marked p' ≡ true)

  on_marker-Keeps :
      (reads : Reads) (pkt : RtpPacket) (s : f.State) (p : Pipeline)
      → (on_marker f print_secs pointer_json cfg reads pkt (s, p)).1 ≡ none
      → Keeps p (on_marker f print_secs pointer_json cfg reads pkt (s, p)).0.1
  unfolding on_marker
  on_marker-Keeps reads pkt s p e =
      let au = build_access_unit p.current_au_nals (or_ts pkt.timestamp p.current_au_rtp_ts) in
      let taken : Pipeline = record p { current_au_nals = []; current_au_rtp_ts = none } in
      let (s₁, p₁) = (rotate f print_secs pointer_json cfg reads au (s, taken)).0 in
      ground (
        arith,
        e,
        rotate_lem reads au s taken p.current_segment refl,
        place_unit_lem reads au s₁ p₁,
        place_unit_lem reads au s taken,
      )

  on_gap-Keeps :
      (reads : Reads) (s : f.State) (p : Pipeline)
      → (on_gap f print_secs cfg reads.finalized_at (s, p)).1 ≡ none
      → Keeps p (on_gap f print_secs cfg reads.finalized_at (s, p)).0.1
  on_gap-Keeps reads s p e =
      let now = reads.finalized_at in
      let p' = (on_gap f print_secs cfg now (s, p)).0.1 in
      (
        (λ c. marked-covered p' (on_gap-marked f print_secs cfg now s p c e)),
        (λ h m. on_gap-marked f print_secs cfg now s p (marked-covered p m) e),
      )

  on_pushed-Keeps :
      (reads : Reads) (pkt : RtpPacket) (pushed : Nals) (s : f.State) (p : Pipeline)
      → (on_pushed f print_secs pointer_json cfg reads pkt pushed (s, p)).1 ≡ none
      → Keeps p (on_pushed f print_secs pointer_json cfg reads pkt pushed (s, p)).0.1
  unfolding on_pushed
  on_pushed-Keeps reads pkt (err x) s p e = on_gap-Keeps reads s p e
  on_pushed-Keeps reads pkt panic s p e = on_gap-Keeps reads s p e
  on_pushed-Keeps reads pkt (ok nals) s p e =
      let (sync_gate, au_nals) = gated nals (p.sync_gate, p.current_au_nals) in
      let p' : Pipeline = record p { sync_gate = sync_gate; current_au_nals = au_nals } in
      ground (arith, e, on_marker-Keeps reads pkt s p')

  on_payload-Keeps :
      (reads : Reads) (pkt : RtpPacket) (s : f.State) (p : Pipeline)
      → (on_payload f print_secs pointer_json cfg reads pkt (s, p)).1 ≡ none
      → Keeps p (on_payload f print_secs pointer_json cfg reads pkt (s, p)).0.1
  unfolding on_payload
  on_payload-Keeps reads pkt s p e =
      let (dep, pushed) = push_rtp_payload p.dep pkt.payload in
      on_pushed-Keeps reads pkt pushed s
        (record p {
          dep = dep;
          expected_seq = some ((pkt.sequence_number + 1) % 65536);
          current_au_rtp_ts = some (or_ts pkt.timestamp p.current_au_rtp_ts);
        })
        e

  on_packet-Keeps :
      (reads : Reads) (pkt : RtpPacket) (s : f.State) (p : Pipeline)
      → (on_packet f print_secs pointer_json cfg reads pkt (s, p)).1 ≡ none
      → Keeps p (on_packet f print_secs pointer_json cfg reads pkt (s, p)).0.1
  unfolding on_packet drop_input
  on_packet-Keeps reads pkt s p e =
      let (s₁, p₁) = (handle_discontinuity f print_secs cfg reads.finalized_at (s, p)).0 in
      let dropped = drop_input p₁ in
      ground (
        arith,
        e,
        handle_discontinuity-marked f print_secs cfg reads.finalized_at s p,
        marked-covered p,
        marked-covered p₁,
        on_payload-Keeps reads pkt s₁ dropped,
        on_payload-Keeps reads pkt s p,
      )

  on_parsed-Keeps :
      (reads : Reads) (parsed : Outcome ParseError RtpPacket) (s : f.State) (p : Pipeline)
      → (on_parsed f print_secs pointer_json cfg reads parsed (s, p)).1 ≡ none
      → Keeps p (on_parsed f print_secs pointer_json cfg reads parsed (s, p)).0.1
  unfolding on_parsed
  on_parsed-Keeps reads (ok pkt) s p e = on_packet-Keeps reads pkt s p e
  on_parsed-Keeps reads (err x) s p e = on_gap-Keeps reads s p e
  on_parsed-Keeps reads panic s p e = on_gap-Keeps reads s p e

  pub on_message-Keeps :
      (reads : Reads) (msg : StreamMsg) (s : f.State) (p : Pipeline)
      → (on_message f print_secs pointer_json cfg reads msg (s, p)).1 ≡ none
      → Keeps p (on_message f print_secs pointer_json cfg reads msg (s, p)).0.1
  unfolding on_message
  on_message-Keeps reads gap s p e = on_gap-Keeps reads s p e
  on_message-Keeps reads motion s p e = ((λ c. c), (λ h m. m))
  on_message-Keeps reads (rtp bytes) s p e = on_parsed-Keeps reads (Rtp.parse bytes) s p e

  pub on_messages-covered :
      (msgs : List (Reads × StreamMsg)) (s : f.State) (p : Pipeline)
      → covered p ≡ true
      → (on_messages f print_secs pointer_json cfg msgs (s, p)).1 ≡ none
      → covered (on_messages f print_secs pointer_json cfg msgs (s, p)).0.1 ≡ true
  unfolding on_messages
  on_messages-covered [] s p c e = c
  on_messages-covered ((reads, msg) ∷ msgs) s p c e =
      let (s₁, p₁) = (on_message f print_secs pointer_json cfg reads msg (s, p)).0 in
      ground (arith, c, e, on_message-Keeps reads msg s p, on_messages-covered msgs s₁ p₁)
