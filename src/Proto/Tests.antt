-- ===== src/Proto/Tests.antt =====
-- Messages over a list of bytes.
use sentinel_video_receiver.Prelude.{◌≡◌, refl, arith, [], ◌∷◌, ◌++◌, Bytes, Safe, ok}
use sentinel_video_receiver.Io.{list_reader, list_writer, list_write}
use sentinel_video_receiver.Proto.{Msg, write_msg, read_msg, encode_gap, decode_gap}
use sentinel_video_receiver.Proto.RoundTrip.{
  read_msg-write_msg, decode_gap-encode_gap, read_msg-Safe,
}

abbrev ping : Msg
ping = record { msg_type = 5; stream_id = 7; payload = 1 ∷ 2 ∷ [] }

abbrev wire : Bytes
wire = 0x53 ∷ 0x4E ∷ 0x54 ∷ 0x50 ∷ 0 ∷ 1 ∷ 0 ∷ 5 ∷ 0 ∷ 0 ∷ 0 ∷ 7 ∷ 0 ∷ 0 ∷ 0 ∷ 2 ∷ 1 ∷ 2 ∷ []

write_msg-ping : write_msg list_writer [] ping ≡ ok wire
unfolding write_msg list_write
write_msg-ping = refl

read_msg-write_msg_example :
    (t : Bytes) × (read_msg list_reader (wire ++ (9 ∷ [])) ≡ ok (ping, t)) × (t ≡ 9 ∷ [])
read_msg-write_msg_example =
    read_msg-write_msg list_writer list_reader [] (wire ++ (9 ∷ [])) ping wire (9 ∷ [])
      (omega arith) (omega arith) write_msg-ping refl refl

decode_gap-encode_gap_example : decode_gap (encode_gap 65535 2) ≡ ok (65535, 2)
decode_gap-encode_gap_example = decode_gap-encode_gap 65535 2 (omega arith) (omega arith)

read_msg-Safe_example : Safe (read_msg list_reader wire)
read_msg-Safe_example = read_msg-Safe list_reader wire
