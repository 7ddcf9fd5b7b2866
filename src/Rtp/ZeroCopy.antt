-- ===== src/Rtp/ZeroCopy.antt =====
-- `RtpPacket` of sentinel_rtp_cam/src/core/rtp_refactored.rs, which keeps the whole buffer and the
-- place of the payload in it. `panic` is an index or a slice out of range.
pub mod Agree
use sentinel_video_receiver.Prelude.{
  ℕ, ◌+◌, ◌-◌, ◌*◌, ◌/◌, ◌%◌, ◌^◌, Bool, true, false, not, ◌||◌, ltb, ◌==◌, length, Bytes, bit,
  low_bits, index, slice, be16, be32, Outcome, ok, ◌>>=◌, ◌>>◌, bail_if,
}

-- The enum of utils/error.rs; `parse` returns the first five variants.
pub data RtpError : Type 0 where
  packet_too_short : ℕ → RtpError
  unsupported_version : ℕ → RtpError
  invalid_csrc_list invalid_extension : RtpError
  invalid_padding : ℕ → RtpError
  sequence_discontinuity payload_type_mismatch : ℕ → ℕ → RtpError

pub record RtpPacket : Type 0 where
  pub bytes : Bytes
  pub payload_offset : ℕ
  pub payload_len : ℕ
  pub sequence_number : ℕ  -- u16
  pub timestamp : ℕ  -- u32
  pub ssrc : ℕ  -- u32
  pub marker : Bool
  pub payload_type : ℕ  -- u8

unfoldable pub skip_csrc : Bytes → ℕ → ℕ → Outcome RtpError ℕ
skip_csrc bytes csrc_count offset = do
  let csrc_bytes = csrc_count * 4
  bail_if (ltb (length bytes) (offset + csrc_bytes)) invalid_csrc_list
  ok (offset + csrc_bytes)

-- The flag is `extension`.
unfoldable pub skip_extension : Bool → Bytes → ℕ → Outcome RtpError ℕ
skip_extension false bytes offset = ok offset
skip_extension true bytes offset = do
  bail_if (ltb (length bytes) (offset + 4)) invalid_extension
  ext_len_words ← be16 bytes (offset + 2)
  let ext_bytes = ext_len_words * 4
  bail_if (ltb (length bytes) (offset + 4 + ext_bytes)) invalid_extension
  ok (offset + 4 + ext_bytes)

-- The flag is `padding`; the result is `payload_end`. `saturating_sub` is `-` on ℕ.
unfoldable pub strip_padding : Bool → Bytes → ℕ → Outcome RtpError ℕ
strip_padding false bytes offset = ok (length bytes)
strip_padding true bytes offset = do
  let payload_end = length bytes
  bail_if (payload_end == 0) (invalid_padding 0)
  pad_len ← index bytes (payload_end - 1)
  bail_if (pad_len == 0 || ltb (payload_end - offset) pad_len) (invalid_padding pad_len)
  ok (payload_end - pad_len)

unfoldable pub parse : Bytes → Outcome RtpError RtpPacket
parse bytes = do
  bail_if (ltb (length bytes) 12) (packet_too_short (length bytes))
  b0 ← index bytes 0
  b1 ← index bytes 1
  let version = b0 / 2 ^ 6
  bail_if (not (version == 2)) (unsupported_version version)
  sequence_number ← be16 bytes 2
  timestamp ← be32 bytes 4
  ssrc ← be32 bytes 8
  offset ← skip_csrc bytes (low_bits b0 4) 12
  offset ← skip_extension (bit b0 4) bytes offset
  payload_end ← strip_padding (bit b0 5) bytes offset
  bail_if (ltb payload_end offset) (packet_too_short (length bytes))
  ok (record {
    bytes = bytes;
    payload_offset = offset;
    payload_len = payload_end - offset;
    sequence_number = sequence_number;
    timestamp = timestamp;
    ssrc = ssrc;
    marker = bit b1 7;
    payload_type = low_bits b1 7;
  })

-- The accessor `payload`.
unfoldable pub payload : RtpPacket → Outcome RtpError Bytes
payload p = slice p.bytes p.payload_offset (p.payload_offset + p.payload_len)

unfoldable pub follows : RtpPacket → ℕ → Bool
follows p expected = p.sequence_number == expected

unfoldable pub next_sequence : RtpPacket → ℕ
next_sequence p = (p.sequence_number + 1) % 65536
