-- ===== src/Live/Stream/Messages.antt =====
-- The handling of messages in `run_stream_v2` of sentinel_rtp_cam/src/live/v2.rs. `pointer_json` is the
-- session pointer as JSON, which has no error for texts and numbers.
use sentinel_video_receiver.Prelude.{
  ℕ, ◌+◌, ◌%◌, Bool, false, not, ◌&&◌, Option, none, some, List, [], ◌∷◌, ◌++◌, ltb, ◌==◌,
  if◌then◌else◌, is_empty, Outcome, ok, err, panic, Bytes, Text,
}
use sentinel_video_receiver.Rtp
use sentinel_video_receiver.Rtp.{RtpPacket, ParseError}
use sentinel_video_receiver.H264.Depacketizer.{Nals, push_rtp_payload}
use sentinel_video_receiver.H264.SyncGate.{H264SyncGate, push_nal}
use sentinel_video_receiver.Clip.Files.{ClipFiles, and_then}
use sentinel_video_receiver.Clip.Paths.{join}
use sentinel_video_receiver.Live.Publisher.{
  AccessUnit, publish_bytes, create_segment, write_access_unit,
}
use sentinel_video_receiver.Live.Playlist.{next_segment_path}
use sentinel_video_receiver.Live.Stream.{
  CurrentSegment, Pipeline, LivePipelineV2Config, Reads, StreamMsg, rtp, gap, motion, Step,
  saturating_suc, is_some, build_access_unit, start, should_rotate_segment, drop_input,
  finalize_segment, handle_discontinuity, on_gap,
}

abbrev pub gated : List Bytes → H264SyncGate × List Bytes → H264SyncGate × List Bytes
gated [] (gate, out) = (gate, out)
gated (nal ∷ nals) (gate, out) =
    let (gate', passed) = push_nal gate nal in gated nals (gate', out ++ passed)

-- "current.json", "ready" and "stopped".
abbrev current_json : Text
current_json =
    b'c' ∷ b'u' ∷ b'r' ∷ b'r' ∷ b'e' ∷ b'n' ∷ b't' ∷ b'.' ∷ b'j' ∷ b's' ∷ b'o' ∷ b'n' ∷ []

abbrev ready : Text
ready = b'r' ∷ b'e' ∷ b'a' ∷ b'd' ∷ b'y' ∷ []

abbrev stopped : Text
stopped = b's' ∷ b't' ∷ b'o' ∷ b'p' ∷ b'p' ∷ b'e' ∷ b'd' ∷ []

abbrev pub or_ts : ℕ → Option ℕ → ℕ
or_ts timestamp none = timestamp
or_ts timestamp (some ts) = ts

abbrev pub out_of_sequence : ℕ → Option ℕ → Bool
out_of_sequence sequence_number none = false
out_of_sequence sequence_number (some expected) = not (sequence_number == expected)

module _ (f : ClipFiles) (print_secs : ℕ → Text) (pointer_json : Text → ℕ → Bytes)
    (cfg : LivePipelineV2Config) where
  unfoldable pub write_current_session_pointer : Text → f.State × Pipeline → Step f
  write_current_session_pointer writer_state (s, p) =
      let (s', e) =
        publish_bytes f s (join cfg.output_root current_json)
          (pointer_json writer_state p.latest_segment_seq) in
      ((s', p), e)

  unfoldable pub finalize_and_point : ℕ → f.State × Pipeline → Step f
  finalize_and_point now sp =
      let ((sp', published), e) = finalize_segment f print_secs cfg now sp in
      and_then (sp', e)
        λ sp. if published then write_current_session_pointer ready sp else (sp, none)

  unfoldable pub rotate : Reads → AccessUnit → f.State × Pipeline → Step f
  rotate reads au (s, p) =
      if should_rotate_segment p.current_segment reads.rotate_at au cfg.segment_secs
      then finalize_and_point reads.finalized_at (s, p)
      else ((s, p), none)

  unfoldable pub open_segment : Reads → f.State × Pipeline → Step f
  open_segment reads (s, p) =
      let (playlist, (seq, path)) = next_segment_path cfg.session_output_root p.playlist in
      let ((s', writer), e) = create_segment f s path in
      elim e [
        | some e ↦ ((s', record p { playlist = playlist }), some e)
        | none ↦ (
          (
            s',
            record p {
              playlist = playlist;
              current_segment = some (record {
                seq = seq;
                writer = writer;
                started_at = reads.opened_at;
                access_units_written = 0;
                discontinuity = p.pending_discontinuity;
              });
              pending_discontinuity = false;
            },
          ),
          none,
        )
      ]

  abbrev clear_pending : AccessUnit → Pipeline → Pipeline
  clear_pending au p =
      if p.pending_discontinuity && (au.has_idr && ltb 0 p.latest_segment_seq)
      then record p { pending_discontinuity = false }
      else p

  -- The unit goes into the segment at hand, and the last `if`.
  unfoldable pub write_unit : AccessUnit → CurrentSegment → f.State × Pipeline → Step f
  write_unit au segment (s, p) =
      let ((s', writer), e) = write_access_unit f au (s, segment.writer) in
      elim e [
        | some e ↦
            ((s', record p { current_segment = some (record segment { writer = writer }) }), some e)
        | none ↦ (
          (
            s',
            clear_pending au (record p {
              current_segment = some (record segment {
                writer = writer;
                access_units_written = saturating_suc segment.access_units_written;
              });
            }),
          ),
          none,
        )
      ]

  abbrev pub write_current : AccessUnit → f.State × Pipeline → Step f
  write_current au (s, p) = elim p.current_segment [
    | none ↦ ((s, clear_pending au p), none)
    | some segment ↦ write_unit au segment (s, p)
  ]

  -- From `if current_segment.is_none()` on.
  unfoldable pub place_unit : Reads → AccessUnit → f.State × Pipeline → Step f
  place_unit reads au (s, p) =
      if is_some p.current_segment
      then write_current au (s, p)
      else if au.has_idr
      then and_then (open_segment reads (s, p)) (write_current au)
      else ((s, p), none)

  -- The body of `if pkt.marker`.
  unfoldable pub on_marker : Reads → RtpPacket → f.State × Pipeline → Step f
  on_marker reads pkt (s, p) =
      if is_empty p.current_au_nals
      then ((s, record p { current_au_rtp_ts = none }), none)
      else (let au =
            build_access_unit p.current_au_nals (or_ts pkt.timestamp p.current_au_rtp_ts) in
          let taken = record p { current_au_nals = []; current_au_rtp_ts = none } in
          and_then (rotate reads au (s, taken)) (place_unit reads au))

  -- The NALs of a payload, or that there was an error.
  unfoldable pub on_pushed : Reads → RtpPacket → Nals → f.State × Pipeline → Step f
  on_pushed reads pkt (err e) sp = on_gap f print_secs cfg reads.finalized_at sp
  on_pushed reads pkt panic sp = on_gap f print_secs cfg reads.finalized_at sp
  on_pushed reads pkt (ok nals) (s, p) =
      let (sync_gate, au_nals) = gated nals (p.sync_gate, p.current_au_nals) in
      let p' = record p { sync_gate = sync_gate; current_au_nals = au_nals } in
      if pkt.marker then on_marker reads pkt (s, p') else ((s, p'), none)

  -- The payload of a packet that is in sequence.
  unfoldable pub on_payload : Reads → RtpPacket → f.State × Pipeline → Step f
  on_payload reads pkt (s, p) =
      let (dep, pushed) = push_rtp_payload p.dep pkt.payload in
      on_pushed reads pkt pushed (
        s,
        record p {
          dep = dep;
          expected_seq = some ((pkt.sequence_number + 1) % 65536);
          current_au_rtp_ts = some (or_ts pkt.timestamp p.current_au_rtp_ts);
        },
      )

  unfoldable pub on_packet : Reads → RtpPacket → f.State × Pipeline → Step f
  on_packet reads pkt (s, p) =
      if out_of_sequence pkt.sequence_number p.expected_seq
      then (and_then (handle_discontinuity f print_secs cfg reads.finalized_at (s, p))
          λ (s, p). on_payload reads pkt (s, drop_input p))
      else on_payload reads pkt (s, p)

  unfoldable pub on_parsed : Reads → Outcome ParseError RtpPacket → f.State × Pipeline → Step f
  on_parsed reads (ok pkt) sp = on_packet reads pkt sp
  on_parsed reads (err e) sp = on_gap f print_secs cfg reads.finalized_at sp
  on_parsed reads panic sp = on_gap f print_secs cfg reads.finalized_at sp

  -- An arm of the `match` on the message.
  unfoldable pub on_message : Reads → StreamMsg → f.State × Pipeline → Step f
  on_message reads gap sp = on_gap f print_secs cfg reads.finalized_at sp
  on_message reads motion sp = (sp, none)
  on_message reads (rtp bytes) sp = on_parsed reads (Rtp.parse bytes) sp

  -- The loop over the messages, up to the first error.
  unfoldable pub on_messages : List (Reads × StreamMsg) → f.State × Pipeline → Step f
  on_messages [] sp = (sp, none)
  on_messages ((reads, msg) ∷ msgs) sp = and_then (on_message reads msg sp) (on_messages msgs)

  -- What follows the loop.
  unfoldable pub finish : ℕ → f.State × Pipeline → Step f
  finish now sp = and_then (finalize_and_point now sp) λ (s, p).
      if ltb 0 p.latest_segment_seq
      then write_current_session_pointer stopped (s, p)
      else ((s, p), none)

  unfoldable pub run_stream_v2 : List (Reads × StreamMsg) → ℕ → f.State → Step f
  run_stream_v2 msgs now s = and_then (on_messages msgs (s, start cfg)) (finish now)
