-- ===== src/Uplink/Tests.antt =====
-- The layout of the payloads, as in the unit tests of agent_uplink.rs, and a record over a list of bytes.
use sentinel_video_receiver.Prelude.{◌≡◌, refl, [], ◌∷◌, ◌++◌, Bytes, ok}
use sentinel_video_receiver.Io.{list_reader, list_writer, list_write, list_flush}
use sentinel_video_receiver.Uplink.{
  Record, record_rtp, read_record, write_record, encode_rtp_tls, encode_gap_tls,
}
use sentinel_video_receiver.Uplink.Records.{read_record-write_record}

gap_layout : encode_gap_tls 1 65534 3 ≡ 0 ∷ 0 ∷ 0 ∷ 1 ∷ 255 ∷ 254 ∷ 0 ∷ 3 ∷ []
unfolding encode_gap_tls
gap_layout = refl

rtp_layout : encode_rtp_tls 2 (128 ∷ 96 ∷ []) ≡ 0 ∷ 0 ∷ 0 ∷ 2 ∷ 128 ∷ 96 ∷ []
unfolding encode_rtp_tls
rtp_layout = refl

abbrev sample : Record
sample = record { record_type = record_rtp; flags = 0; payload = 0 ∷ 0 ∷ 0 ∷ 2 ∷ 128 ∷ [] }

abbrev wire : Bytes
wire = 2 ∷ 0 ∷ 0 ∷ 0 ∷ 0 ∷ 5 ∷ 0 ∷ 0 ∷ 0 ∷ 2 ∷ 128 ∷ []

write_record-sample : write_record list_writer [] sample ≡ ok wire
unfolding write_record list_write list_flush
write_record-sample = refl

read_record-write_record_example :
    (t : Bytes) × (read_record list_reader (wire ++ (7 ∷ [])) ≡ ok (sample, t)) × (t ≡ 7 ∷ [])
read_record-write_record_example =
    read_record-write_record list_writer list_reader [] (wire ++ (7 ∷ [])) sample (7 ∷ [])
      write_record-sample refl
