-- ===== src/Live/Tests.antt =====
-- Tests and instances.
use sentinel_video_receiver.Prelude.{
  ℕ, ◌≡◌, refl, arith, Bool, true, false, if◌then◌else◌, none, some, Text, text_same, index, slice,
  be16, be32, List, [], ◌∷◌, ◌++◌, length, replicate, map, Bytes,
}
use sentinel_video_receiver.Rtp
use sentinel_video_receiver.H264.Nal.{nal_type_from_annexb, annexb_from_raw_nal}
use sentinel_video_receiver.H264.Depacketizer
use sentinel_video_receiver.H264.SyncGate
use sentinel_video_receiver.Clip.Paths.{join, file_name, split_last, parent, with_file_name}
use sentinel_video_receiver.Clip.Memory.{Memory, memory_files, no_files}
use sentinel_video_receiver.Live.Publisher
use sentinel_video_receiver.Live.Publisher.{
  AccessUnit, temp_path_for, create_segment, write_access_unit,
}
use sentinel_video_receiver.Live.Publisher.Content.{
  tables, aus_bytes, write_units, write_segment, content-write_segment,
}
use sentinel_video_receiver.Live.Playlist
use sentinel_video_receiver.Live.Playlist.{
  digits, segment_name, next_segment_path, evict, entry_lines, playlist_text, publish_entries,
  remove_evicted, push_segment,
}
use sentinel_video_receiver.Live.Stream.{
  Pipeline, LivePipelineV2Config, Reads, StreamMsg, rtp, gap, is_some, is_idr, has_idr,
  build_access_unit, start, should_rotate_segment, drop_input, finalize_taken, finalize_segment,
  handle_discontinuity, on_gap,
}
use sentinel_video_receiver.Live.Stream.Messages.{
  write_current_session_pointer, finalize_and_point, rotate, open_segment, write_unit, place_unit,
  on_marker, on_pushed, on_payload, on_packet, on_parsed, on_message, on_messages, finish,
  run_stream_v2,
}
use sentinel_video_receiver.Live.Stream.Order.{Ordered}
use sentinel_video_receiver.Live.Stream.Marks.{mark_of, marked}
use sentinel_video_receiver.Live.Stream.Losses.{Emptied, on_messages-marked}
use sentinel_video_receiver.Live.Stream.Runs.{run_stream_v2-Ordered}
use sentinel_video_receiver.Live.Ts.{
  video_pid, adaptation_field, ts_packet, packetize_loop, packetize_ts, encode_pts, build_pes_video,
  crc_byte, crc_from, mpeg_crc32, build_pat_packet, build_pmt_packet,
}
use sentinel_video_receiver.Live.Ts.Pts.{read_pes, read_pes-build_pes_video}
use sentinel_video_receiver.Live.Ts.Packets.{
  Stream, payloads, payloads-packetize_ts, packetize_ts-Stream,
}

program : Unit {0}
unfolding join file_name text_same nal_type_from_annexb annexb_from_raw_nal Rtp.skip_csrc
    Rtp.skip_extension Rtp.strip_padding Rtp.parse index slice be16 be32 Depacketizer.new
    Depacketizer.reset Depacketizer.push_rtp_payload SyncGate.new SyncGate.reset SyncGate.push_nal
    split_last parent with_file_name temp_path_for Publisher.create Publisher.write_all
    Publisher.publish Publisher.discard Publisher.publish_bytes create_segment write_access_unit
    Playlist.new digits segment_name next_segment_path evict entry_lines playlist_text
    publish_entries remove_evicted push_segment is_idr has_idr build_access_unit start
    should_rotate_segment drop_input finalize_taken finalize_segment handle_discontinuity on_gap
    write_current_session_pointer finalize_and_point rotate open_segment write_unit place_unit
    on_marker on_pushed on_payload on_packet on_parsed on_message on_messages finish run_stream_v2
    write_units write_segment build_pmt_packet adaptation_field ts_packet packetize_loop
    packetize_ts encode_pts build_pes_video crc_byte crc_from mpeg_crc32 build_pat_packet
program = tt

-- The checksum of the program table that most streams carry.
pat_crc : mpeg_crc32 (0 ∷ 176 ∷ 13 ∷ 0 ∷ 1 ∷ 193 ∷ 0 ∷ 0 ∷ 0 ∷ 1 ∷ 240 ∷ 0 ∷ []) ≡ 0x2AB104B2
unfolding program
pat_crc = refl

read_pes-build_pes_video_example : read_pes (build_pes_video 8589934593 (7 ∷ [])) ≡ (1, 7 ∷ [])
read_pes-build_pes_video_example = read_pes-build_pes_video 8589934593 (7 ∷ [])

abbrev unit : Bytes
unit = replicate 200 9

two_packets : map length (packetize_ts video_pid unit 15 true).0 ≡ 188 ∷ 188 ∷ []
unfolding program
two_packets = refl

payloads-packetize_ts_example : payloads (packetize_ts video_pid unit 15 true).0 ≡ unit
payloads-packetize_ts_example = payloads-packetize_ts video_pid unit 15 true

packetize_ts-Stream_example : Stream video_pid 15 true (packetize_ts video_pid unit 15 true).0
packetize_ts-Stream_example = packetize_ts-Stream video_pid unit 15 true (omega arith)

abbrev print_none : ℕ → Text
print_none ns = []

abbrev pointer_none : Text → ℕ → Bytes
pointer_none writer_state seq = []

abbrev config : LivePipelineV2Config
config = record {
  output_root = b'o' ∷ [];
  session_output_root = b's' ∷ [];
  segment_secs = 2;
  window_secs = 6;
  h264_sync_seed = none;
}

abbrev reads : Reads
reads = record { rotate_at = 0; finalized_at = 0; opened_at = 0 }

abbrev rtp_packet : ℕ → Bool → Bytes → Bytes
rtp_packet seq marker payload =
    128 ∷ (if marker then 224 else 96) ∷ 0 ∷ seq ∷ 0 ∷ 0 ∷ 0 ∷ 9 ∷ 0 ∷ 0 ∷ 0 ∷ 1 ∷ payload

-- A gap, then parameter sets and an IDR slice as one access unit.
abbrev messages : List (Reads × StreamMsg)
messages =
    (reads, gap)
    ∷ (reads, rtp (rtp_packet 1 false (103 ∷ 1 ∷ [])))
    ∷ (reads, rtp (rtp_packet 2 false (104 ∷ 2 ∷ [])))
    ∷ (reads, rtp (rtp_packet 3 true (101 ∷ 3 ∷ [])))
    ∷ []

-- The access unit opened a segment.
segment_opened :
    is_some
      (on_messages memory_files print_none pointer_none config messages
        (no_files, start config)).0.1.current_segment
    ≡ true
unfolding program
segment_opened = refl

run_stream_v2-Ordered_example :
    Ordered (run_stream_v2 memory_files print_none pointer_none config messages 0 no_files).0.1
run_stream_v2-Ordered_example =
    run_stream_v2-Ordered memory_files print_none pointer_none config messages 0 no_files

-- A packet that cannot be read, then parameter sets, and then an IDR slice.
abbrev quiet : List (Reads × StreamMsg)
quiet =
    (reads, rtp (rtp_packet 5 false (103 ∷ 1 ∷ [])))
    ∷ (reads, rtp (rtp_packet 6 false (104 ∷ 2 ∷ [])))
    ∷ []

abbrev at_loss : Memory × Pipeline
at_loss =
    (on_messages memory_files print_none pointer_none config messages (no_files, start config)).0

abbrev lost : Memory × Pipeline
lost = (on_message memory_files print_none pointer_none config reads (rtp (1 ∷ 2 ∷ [])) at_loss).0

abbrev waiting : Memory × Pipeline
waiting = (on_messages memory_files print_none pointer_none config quiet lost).0

abbrev opened : Memory × Pipeline
opened =
    (on_message memory_files print_none pointer_none config reads
      (rtp (rtp_packet 7 true (101 ∷ 3 ∷ []))) waiting).0

on_messages-marked_example : Emptied lost.1 × (marked waiting.1 ≡ true) × (marked opened.1 ≡ true)
unfolding program
on_messages-marked_example =
    on_messages-marked memory_files print_none pointer_none config messages reads (rtp (1 ∷ 2 ∷ []))
      quiet reads (rtp (rtp_packet 7 true (101 ∷ 3 ∷ []))) no_files refl refl refl refl refl refl

-- The segment behind the loss is marked; one had been published.
segment_marked : (opened.1.latest_segment_seq ≡ 1) × (mark_of false opened.1.current_segment ≡ true)
unfolding program
segment_marked = (refl, refl)

abbrev units : List AccessUnit
units = record { rtp_timestamp = 9; nals = (1 ∷ []) ∷ []; has_idr = true } ∷ []

content-write_segment_example :
    memory_files.content
      (write_segment memory_files no_files (b's' ∷ b'/' ∷ b'x' ∷ []) units).0
      (b's' ∷ b'/' ∷ b'x' ∷ [])
    ≡ some (tables ++ aus_bytes units 0)
unfolding program
content-write_segment_example =
    content-write_segment memory_files no_files (b's' ∷ b'/' ∷ b'x' ∷ []) units refl
