-- ===== src/Rtp.antt =====
-- `RtpPacket::parse` of sentinel_rtp_cam/src/core/rtp.rs, which copies no byte. `panic` is an index
-- or a slice out of range.
pub mod ZeroCopy
pub mod Bounds
pub mod Wire
pub mod RoundTrip
mod Tests
use sentinel_video_receiver.Prelude.{
  ℕ, ◌+◌, ◌-◌, ◌*◌, ◌/◌, ◌^◌, Bool, true, false, not, ◌||◌, ltb, ◌==◌, length, Bytes, bit, low_bits,
  index, slice, be16, be32, Outcome, ok, ◌>>=◌, ◌>>◌, bail_if,
}

pub record RtpPacket : Type 0 where
  pub version : ℕ  -- u8
  pub padding : Bool
  pub extension : Bool
  pub csrc_count : ℕ  -- u8
  pub marker : Bool
  pub payload_type : ℕ  -- u8
  pub sequence_number : ℕ  -- u16
  pub timestamp : ℕ  -- u32
  pub ssrc : ℕ  -- u32
  pub payload : Bytes

-- One constructor for each `bail!`, with the numbers of its text.
pub data ParseError : Type 0 where
  too_short : ℕ → ParseError
  unsupported_version : ℕ → ParseError
  short_csrc short_extension_header short_extension_data empty_padding : ParseError
  invalid_padding : ℕ → ParseError
  offset_beyond_end : ℕ → ℕ → ParseError

unfoldable pub skip_csrc : Bytes → ℕ → ℕ → Outcome ParseError ℕ
skip_csrc buf csrc_count off = do
  let csrc_bytes = csrc_count * 4
  bail_if (ltb (length buf) (off + csrc_bytes)) short_csrc
  ok (off + csrc_bytes)

-- The flag is `extension`.
unfoldable pub skip_extension : Bool → Bytes → ℕ → Outcome ParseError ℕ
skip_extension false buf off = ok off
skip_extension true buf off = do
  bail_if (ltb (length buf) (off + 4)) short_extension_header
  ext_len_words ← be16 buf (off + 2)
  let ext_bytes = ext_len_words * 4
  bail_if (ltb (length buf) (off + 4 + ext_bytes)) short_extension_data
  ok (off + 4 + ext_bytes)

-- The flag is `padding`; the result is the end of the payload. `saturating_sub` is `-` on ℕ.
unfoldable pub strip_padding : Bool → Bytes → ℕ → Outcome ParseError ℕ
strip_padding false buf off = ok (length buf)
strip_padding true buf off = do
  let end = length buf
  bail_if (end == 0) empty_padding
  pad_len ← index buf (end - 1)
  bail_if (pad_len == 0 || ltb (end - off) pad_len) (invalid_padding pad_len)
  ok (end - pad_len)

unfoldable pub parse : Bytes → Outcome ParseError RtpPacket
parse buf = do
  bail_if (ltb (length buf) 12) (too_short (length buf))
  b0 ← index buf 0
  b1 ← index buf 1
  let version = b0 / 2 ^ 6
  bail_if (not (version == 2)) (unsupported_version version)
  sequence_number ← be16 buf 2
  timestamp ← be32 buf 4
  ssrc ← be32 buf 8
  off ← skip_csrc buf (low_bits b0 4) 12
  off ← skip_extension (bit b0 4) buf off
  end ← strip_padding (bit b0 5) buf off
  bail_if (ltb end off) (offset_beyond_end off end)
  payload ← slice buf off end
  ok (record {
    version = version;
    padding = bit b0 5;
    extension = bit b0 4;
    csrc_count = low_bits b0 4;
    marker = bit b1 7;
    payload_type = low_bits b1 7;
    sequence_number = sequence_number;
    timestamp = timestamp;
    ssrc = ssrc;
    payload = payload;
  })
