-- ===== src/Live/Stream/Runs.antt =====
-- The order of segments over a whole run.
use sentinel_video_receiver.Prelude.{
  ℕ, ◌+◌, ◌%◌, ◌≡◌, refl, arith, Bool, true, false, Option, none, some, List, [], ◌∷◌,
  if◌then◌else◌, ok, err, panic, Bytes, Text,
}
use sentinel_video_receiver.Rtp
use sentinel_video_receiver.Rtp.{RtpPacket}
use sentinel_video_receiver.H264.Depacketizer.{Nals, push_rtp_payload}
use sentinel_video_receiver.Clip.Files.{ClipFiles}
use sentinel_video_receiver.Live.Publisher.{AccessUnit}
use sentinel_video_receiver.Live.Playlist.{next_segment_path}
use sentinel_video_receiver.Live.Playlist.Window
use sentinel_video_receiver.Live.Playlist.Window.{Between, Between-higher, new-WellFormed}
use sentinel_video_receiver.Live.Stream.{
  CurrentSegment, Pipeline, LivePipelineV2Config, Reads, StreamMsg, rtp, gap, motion,
  build_access_unit, start, drop_input, handle_discontinuity,
}
use sentinel_video_receiver.Live.Stream.Messages.{
  gated, or_ts, write_current_session_pointer, finalize_and_point, rotate, open_segment, write_unit,
  write_current, place_unit, on_marker, on_pushed, on_payload, on_parsed, on_packet, on_message,
  on_messages, finish, run_stream_v2,
}
use sentinel_video_receiver.Live.Stream.Order.{
  Ordered, finalize_segment-Ordered, handle_discontinuity-Ordered, drop_input-Ordered,
  on_gap-Ordered,
}

module _ (f : ClipFiles) (print_secs : ℕ → Text) (pointer_json : Text → ℕ → Bytes)
    (cfg : LivePipelineV2Config) where
  finalize_and_point-Ordered :
      (now : ℕ) (s : f.State) (p : Pipeline)
      → Ordered p
      → Ordered (finalize_and_point f print_secs pointer_json cfg now (s, p)).0.1
  unfolding finalize_and_point write_current_session_pointer
  finalize_and_point-Ordered now s p o =
      ground (arith, finalize_segment-Ordered f print_secs cfg now s p o)

  rotate-Ordered :
      (reads : Reads) (au : AccessUnit) (s : f.State) (p : Pipeline)
      → Ordered p
      → Ordered (rotate f print_secs pointer_json cfg reads au (s, p)).0.1
  unfolding rotate
  rotate-Ordered reads au s p o =
      ground (arith, o, finalize_and_point-Ordered reads.finalized_at s p o)

  open_segment-Ordered :
      (reads : Reads) (s : f.State) (p : Pipeline)
      → Ordered p
      → p.current_segment ≡ none
      → Ordered (open_segment f print_secs pointer_json cfg reads (s, p)).0.1
  unfolding open_segment next_segment_path
  open_segment-Ordered reads s p o e =
      let next = p.playlist.next_segment_seq in
      let order = o.playlist_lem.order_lem in
      let window = o.playlist_lem.window_lem in
      let listed : Window.WellFormed (record p.playlist { next_segment_seq = next + 1 }) = record {
        order_lem = Between-higher 1 next (next + 1) p.playlist.entries (omega arith) order;
        window_lem = window;
      } in
      ground (arith, listed, order, e)

  write_unit-Ordered :
      (au : AccessUnit) (segment : CurrentSegment) (s : f.State) (p : Pipeline)
      → Ordered p
      → p.current_segment ≡ some segment
      → Ordered (write_unit f print_secs pointer_json cfg au segment (s, p)).0.1
  unfolding write_unit
  write_unit-Ordered au segment s p o e = ground (arith, o, e)

  write_current-Ordered :
      (au : AccessUnit) (s : f.State) (p : Pipeline) (segment : Option CurrentSegment)
      → p.current_segment ≡ segment
      → Ordered p
      → Ordered (write_current f print_secs pointer_json cfg au (s, p)).0.1
  write_current-Ordered au s p none e o = ground (arith, e, o)
  write_current-Ordered au s p (some segment) e o =
      ground (arith, e, o, write_unit-Ordered au segment s p o e)

  place_unit-Ordered :
      (reads : Reads) (au : AccessUnit) (s : f.State) (p : Pipeline)
      → Ordered p
      → Ordered (place_unit f print_secs pointer_json cfg reads au (s, p)).0.1
  unfolding place_unit
  place_unit-Ordered reads au s p o =
      let (s', p') = (open_segment f print_secs pointer_json cfg reads (s, p)).0 in
      ground (
        arith,
        o,
        open_segment-Ordered reads s p o,
        write_current-Ordered au s p p.current_segment refl o,
        write_current-Ordered au s' p' p'.current_segment refl,
      )

  on_marker-Ordered :
      (reads : Reads) (pkt : RtpPacket) (s : f.State) (p : Pipeline)
      → Ordered p
      → Ordered (on_marker f print_secs pointer_json cfg reads pkt (s, p)).0.1
  unfolding on_marker
  on_marker-Ordered reads pkt s p o =
      let au = build_access_unit p.current_au_nals (or_ts pkt.timestamp p.current_au_rtp_ts) in
      let taken : Pipeline = record p { current_au_nals = []; current_au_rtp_ts = none } in
      let kept : Ordered taken = record {
        playlist_lem = o.playlist_lem;
        segment_lem = o.segment_lem;
      } in
      let (s', p') = (rotate f print_secs pointer_json cfg reads au (s, taken)).0 in
      ground (arith, o, rotate-Ordered reads au s taken kept, place_unit-Ordered reads au s' p')

  on_pushed-Ordered :
      (reads : Reads) (pkt : RtpPacket) (pushed : Nals) (s : f.State) (p : Pipeline)
      → Ordered p
      → Ordered (on_pushed f print_secs pointer_json cfg reads pkt pushed (s, p)).0.1
  unfolding on_pushed
  on_pushed-Ordered reads pkt (err e) s p o =
      on_gap-Ordered f print_secs cfg reads.finalized_at s p o
  on_pushed-Ordered reads pkt panic s p o = on_gap-Ordered f print_secs cfg reads.finalized_at s p o
  on_pushed-Ordered reads pkt (ok nals) s p o =
      let (sync_gate, au_nals) = gated nals (p.sync_gate, p.current_au_nals) in
      let p' : Pipeline = record p { sync_gate = sync_gate; current_au_nals = au_nals } in
      let kept : Ordered p' = record {
        playlist_lem = o.playlist_lem;
        segment_lem = o.segment_lem;
      } in
      elim pkt.marker
        as (λ (m : Bool).
          Ordered
            (if m
              then on_marker f print_secs pointer_json cfg reads pkt (s, p')
              else ((s, p'), none)).0.1) [
                | true ↦ on_marker-Ordered reads pkt s p' kept
                | false ↦ kept
              ]

  on_payload-Ordered :
      (reads : Reads) (pkt : RtpPacket) (s : f.State) (p : Pipeline)
      → Ordered p
      → Ordered (on_payload f print_secs pointer_json cfg reads pkt (s, p)).0.1
  unfolding on_payload
  on_payload-Ordered reads pkt s p o =
      let (dep, pushed) = push_rtp_payload p.dep pkt.payload in
      on_pushed-Ordered reads pkt pushed s
        (record p {
          dep = dep;
          expected_seq = some ((pkt.sequence_number + 1) % 65536);
          current_au_rtp_ts = some (or_ts pkt.timestamp p.current_au_rtp_ts);
        })
        (record { playlist_lem = o.playlist_lem; segment_lem = o.segment_lem })

  on_packet-Ordered :
      (reads : Reads) (pkt : RtpPacket) (s : f.State) (p : Pipeline)
      → Ordered p
      → Ordered (on_packet f print_secs pointer_json cfg reads pkt (s, p)).0.1
  unfolding on_packet
  on_packet-Ordered reads pkt s p o =
      let (s', p') = (handle_discontinuity f print_secs cfg reads.finalized_at (s, p)).0 in
      let o' = handle_discontinuity-Ordered f print_secs cfg reads.finalized_at s p o in
      ground (
        arith,
        o',
        on_payload-Ordered reads pkt s p o,
        on_payload-Ordered reads pkt s' (drop_input p') (drop_input-Ordered f print_secs cfg p' o'),
      )

  pub on_message-Ordered :
      (reads : Reads) (msg : StreamMsg) (s : f.State) (p : Pipeline)
      → Ordered p
      → Ordered (on_message f print_secs pointer_json cfg reads msg (s, p)).0.1
  unfolding on_message on_parsed
  on_message-Ordered reads gap s p o = on_gap-Ordered f print_secs cfg reads.finalized_at s p o
  on_message-Ordered reads motion s p o = o
  on_message-Ordered reads (rtp bytes) s p o =
      elim (Rtp.parse bytes)
        as (λ parsed. Ordered (on_parsed f print_secs pointer_json cfg reads parsed (s, p)).0.1) [
          | ok pkt ↦ on_packet-Ordered reads pkt s p o
          | err e ↦ on_gap-Ordered f print_secs cfg reads.finalized_at s p o
          | panic ↦ on_gap-Ordered f print_secs cfg reads.finalized_at s p o
        ]

  on_messages-Ordered :
      (msgs : List (Reads × StreamMsg)) (s : f.State) (p : Pipeline)
      → Ordered p
      → Ordered (on_messages f print_secs pointer_json cfg msgs (s, p)).0.1
  unfolding on_messages
  on_messages-Ordered [] s p o = o
  on_messages-Ordered ((reads, msg) ∷ msgs) s p o =
      let (s', p') = (on_message f print_secs pointer_json cfg reads msg (s, p)).0 in
      ground (arith, on_message-Ordered reads msg s p o, on_messages-Ordered msgs s' p')

  start-Ordered : Ordered (start cfg)
  unfolding start
  start-Ordered = record {
    playlist_lem = new-WellFormed cfg.segment_secs cfg.window_secs;
    segment_lem = tt;
  }

  finish-Ordered :
      (now : ℕ) (s : f.State) (p : Pipeline)
      → Ordered p
      → Ordered (finish f print_secs pointer_json cfg now (s, p)).0.1
  unfolding finish write_current_session_pointer
  finish-Ordered now s p o = ground (arith, finalize_and_point-Ordered now s p o)

  -- Over a whole run, whatever is received and whatever fails: the playlist lists its segments in the
  -- order of their numbers, each once, below the next number and no more than its window holds, and
  -- a segment under way has a number that was handed out and is above those listed.
  pub run_stream_v2-Ordered :
      (msgs : List (Reads × StreamMsg)) (now : ℕ) (s : f.State)
      → Ordered (run_stream_v2 f print_secs pointer_json cfg msgs now s).0.1
  unfolding run_stream_v2
  run_stream_v2-Ordered msgs now s =
      let (s', p') = (on_messages f print_secs pointer_json cfg msgs (s, start cfg)).0 in
      ground (arith, on_messages-Ordered msgs s (start cfg) start-Ordered, finish-Ordered now s' p')
