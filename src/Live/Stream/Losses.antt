-- ===== src/Live/Stream/Losses.antt =====
-- What `run_stream_v2` of sentinel_rtp_cam/src/live/v2.rs does when input is lost, and with what follows.
use sentinel_video_receiver.Prelude.{
  ℕ, ◌≡◌, refl, arith, Bool, true, false, not, ◌&&◌, Option, none, some, List, [], ◌∷◌,
  if◌then◌else◌, ok, err, panic, Bytes, Text, Outcome,
}
use sentinel_video_receiver.Rtp
use sentinel_video_receiver.Rtp.{RtpPacket, ParseError}
use sentinel_video_receiver.H264.Depacketizer
use sentinel_video_receiver.H264.Depacketizer.{Nals, push_rtp_payload}
use sentinel_video_receiver.Clip.Files.{ClipFiles}
use sentinel_video_receiver.Live.Stream.{
  Pipeline, LivePipelineV2Config, Reads, StreamMsg, rtp, gap, motion, is_some, start, drop_input,
  handle_discontinuity, on_gap,
}
use sentinel_video_receiver.Live.Stream.Messages.{
  out_of_sequence, on_pushed, on_payload, on_parsed, on_packet, on_message, on_messages,
}
use sentinel_video_receiver.Live.Stream.Order.{on_gap_lem}
use sentinel_video_receiver.Live.Stream.Marks.{
  marked, covered, on_message-Keeps, on_messages-covered,
}

-- The payload of a packet cannot be read, behind the packets so far.
abbrev no_nals : Nals → Bool
no_nals (ok nals) = false
no_nals _ = true

abbrev unreadable : Pipeline → Outcome ParseError RtpPacket → Bool
unreadable p (ok pkt) =
    let dep =
      if out_of_sequence pkt.sequence_number p.expected_seq then Depacketizer.new else p.dep in
    no_nals (push_rtp_payload dep pkt.payload).1
unreadable p _ = true

-- A gap, or a packet that cannot be read, or whose payload cannot be.
abbrev pub loses : Pipeline → StreamMsg → Bool
loses p gap = true
loses p motion = false
loses p (rtp bytes) = unreadable p (Rtp.parse bytes)

-- No segment is under way, nothing is kept of the access unit and the NAL at hand, the gate is closed if
-- it asks for a sync point, and any packet may come next.
pub record Emptied (p : Pipeline) : Type 0 where
  pub segment_lem : p.current_segment ≡ none
  pub nals_lem : p.current_au_nals ≡ []
  pub rtp_ts_lem : p.current_au_rtp_ts ≡ none
  pub expected_lem : p.expected_seq ≡ none
  pub dep_lem : p.dep ≡ record { fu_active = false; fu_buf = [] }
  pub gate_lem : p.sync_gate.synced ≡ not p.sync_gate.require_idr_sync

module _ (f : ClipFiles) (print_secs : ℕ → Text) (pointer_json : Text → ℕ → Bytes)
    (cfg : LivePipelineV2Config) where
  on_gap-Emptied :
      (now : ℕ) (s : f.State) (p : Pipeline)
      → (on_gap f print_secs cfg now (s, p)).1 ≡ none
      → Emptied (on_gap f print_secs cfg now (s, p)).0.1
  on_gap-Emptied now s p e =
      let (segment, nals, ts, expected, dep, gate, _) = on_gap_lem f print_secs cfg now s p e in
      record {
        segment_lem = segment;
        nals_lem = nals;
        rtp_ts_lem = ts;
        expected_lem = expected;
        dep_lem = dep;
        gate_lem = gate;
      }

  on_pushed-Emptied :
      (reads : Reads) (pkt : RtpPacket) (pushed : Nals) (s : f.State) (p : Pipeline)
      → no_nals pushed ≡ true
      → (on_pushed f print_secs pointer_json cfg reads pkt pushed (s, p)).1 ≡ none
      → Emptied (on_pushed f print_secs pointer_json cfg reads pkt pushed (s, p)).0.1
  unfolding on_pushed
  on_pushed-Emptied reads pkt (err x) s p l e = on_gap-Emptied reads.finalized_at s p e
  on_pushed-Emptied reads pkt panic s p l e = on_gap-Emptied reads.finalized_at s p e
  on_pushed-Emptied reads pkt (ok nals) s p l e = absurd (ground (arith, l))

  on_payload-Emptied :
      (reads : Reads) (pkt : RtpPacket) (s : f.State) (p : Pipeline)
      → no_nals (push_rtp_payload p.dep pkt.payload).1 ≡ true
      → (on_payload f print_secs pointer_json cfg reads pkt (s, p)).1 ≡ none
      → Emptied (on_payload f print_secs pointer_json cfg reads pkt (s, p)).0.1
  unfolding on_payload
  on_payload-Emptied reads pkt s p l e =
      let (dep, pushed) = push_rtp_payload p.dep pkt.payload in
      on_pushed-Emptied reads pkt pushed s _ l e

  on_packet-Emptied :
      (reads : Reads) (pkt : RtpPacket) (s : f.State) (p : Pipeline)
      → unreadable p (ok pkt) ≡ true
      → (on_packet f print_secs pointer_json cfg reads pkt (s, p)).1 ≡ none
      → Emptied (on_packet f print_secs pointer_json cfg reads pkt (s, p)).0.1
  unfolding on_packet drop_input Depacketizer.reset Depacketizer.new
  on_packet-Emptied reads pkt s p l e =
      let (s₁, p₁) = (handle_discontinuity f print_secs cfg reads.finalized_at (s, p)).0 in
      ground (
        arith,
        l,
        e,
        on_payload-Emptied reads pkt s₁ (drop_input p₁),
        on_payload-Emptied reads pkt s p,
      )

  on_parsed-Emptied :
      (reads : Reads) (parsed : Outcome ParseError RtpPacket) (s : f.State) (p : Pipeline)
      → unreadable p parsed ≡ true
      → (on_parsed f print_secs pointer_json cfg reads parsed (s, p)).1 ≡ none
      → Emptied (on_parsed f print_secs pointer_json cfg reads parsed (s, p)).0.1
  unfolding on_parsed
  on_parsed-Emptied reads (ok pkt) s p l e = on_packet-Emptied reads pkt s p l e
  on_parsed-Emptied reads (err x) s p l e = on_gap-Emptied reads.finalized_at s p e
  on_parsed-Emptied reads panic s p l e = on_gap-Emptied reads.finalized_at s p e

  on_message-Emptied :
      (reads : Reads) (msg : StreamMsg) (s : f.State) (p : Pipeline)
      → loses p msg ≡ true
      → (on_message f print_secs pointer_json cfg reads msg (s, p)).1 ≡ none
      → Emptied (on_message f print_secs pointer_json cfg reads msg (s, p)).0.1
  unfolding on_message
  on_message-Emptied reads gap s p l e = on_gap-Emptied reads.finalized_at s p e
  on_message-Emptied reads motion s p l e = absurd (ground (arith, l))
  on_message-Emptied reads (rtp bytes) s p l e = on_parsed-Emptied reads (Rtp.parse bytes) s p l e

  -- Messages that open no segment.
  abbrev pub waits : List (Reads × StreamMsg) → f.State × Pipeline → Bool
  waits [] sp = true
  waits ((reads, msg) ∷ msgs) sp =
      let sp' = (on_message f print_secs pointer_json cfg reads msg sp).0 in
      not (is_some sp'.1.current_segment) && waits msgs sp'

  none_lem {ℓ} : {A : Type ℓ} (o : Option A) → is_some o ≡ false → o ≡ none
  none_lem none h = refl
  none_lem (some a) h = absurd (ground (arith, h))

  waits-marked :
      (msgs : List (Reads × StreamMsg)) (s : f.State) (p : Pipeline)
      → p.current_segment ≡ none
      → marked p ≡ true
      → waits msgs (s, p) ≡ true
      → (on_messages f print_secs pointer_json cfg msgs (s, p)).1 ≡ none
      → let p' = (on_messages f print_secs pointer_json cfg msgs (s, p)).0.1 in
        (p'.current_segment ≡ none) × (marked p' ≡ true)
  unfolding on_messages
  waits-marked [] s p h m w e = (h, m)
  waits-marked ((reads, msg) ∷ msgs) s p h m w e =
      let (s₁, p₁) = (on_message f print_secs pointer_json cfg reads msg (s, p)).0 in
      ground (
        arith,
        h,
        m,
        w,
        e,
        none_lem p₁.current_segment,
        on_message-Keeps f print_secs pointer_json cfg reads msg s p,
        waits-marked msgs s₁ p₁,
      )

start-covered : (cfg : LivePipelineV2Config) → covered (start cfg) ≡ true
unfolding start
start-covered cfg = ground arith

-- From the start of the pipeline on, whatever has been received and with no error of the files: a gap, or
-- a packet that cannot be read or whose payload cannot be, leaves no segment under way, no NAL of the
-- access unit and no fragment, the gate closed if it asks for a sync point, and no packet expected. The
-- first segment that is opened behind it, after any messages that open none, is marked as a
-- discontinuity if a segment has been published.
pub on_messages-marked :
    (f : ClipFiles) (print_secs : ℕ → Text) (pointer_json : Text → ℕ → Bytes)
    (cfg : LivePipelineV2Config) (msgs : List (Reads × StreamMsg)) (reads : Reads)
    (lossy : StreamMsg) (quiet : List (Reads × StreamMsg)) (reads' : Reads) (next : StreamMsg)
    (s : f.State)
    → (on_messages f print_secs pointer_json cfg msgs (s, start cfg)).1 ≡ none
    → let sp = (on_messages f print_secs pointer_json cfg msgs (s, start cfg)).0 in
      loses sp.1 lossy ≡ true
      → (on_message f print_secs pointer_json cfg reads lossy sp).1 ≡ none
      → let lost = (on_message f print_secs pointer_json cfg reads lossy sp).0 in
        waits f print_secs pointer_json cfg quiet lost ≡ true
        → (on_messages f print_secs pointer_json cfg quiet lost).1 ≡ none
        → let waiting = (on_messages f print_secs pointer_json cfg quiet lost).0 in
          (on_message f print_secs pointer_json cfg reads' next waiting).1 ≡ none
          → let (s', p') = (on_message f print_secs pointer_json cfg reads' next waiting).0 in
            Emptied lost.1 × (marked waiting.1 ≡ true) × (marked p' ≡ true)
on_messages-marked f print_secs pointer_json cfg msgs reads lossy quiet reads' next s e l e₁ w e₂
      e₃ =
    let (s₀, p₀) = (on_messages f print_secs pointer_json cfg msgs (s, start cfg)).0 in
    let (s₁, p₁) = (on_message f print_secs pointer_json cfg reads lossy (s₀, p₀)).0 in
    let (s₂, p₂) = (on_messages f print_secs pointer_json cfg quiet (s₁, p₁)).0 in
    let c =
      on_messages-covered f print_secs pointer_json cfg msgs s (start cfg) (start-covered cfg) e in
    let emptied = on_message-Emptied f print_secs pointer_json cfg reads lossy s₀ p₀ l e₁ in
    let c₁ = (on_message-Keeps f print_secs pointer_json cfg reads lossy s₀ p₀ e₁).0 c in
    let m : marked p₁ ≡ true = ground (arith, c₁, emptied.segment_lem) in
    let (none₂, m₂) =
      waits-marked f print_secs pointer_json cfg quiet s₁ p₁ emptied.segment_lem m w e₂ in
    (emptied, m₂, (on_message-Keeps f print_secs pointer_json cfg reads' next s₂ p₂ e₃).1 none₂ m₂)
