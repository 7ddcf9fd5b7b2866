-- ===== src/Rtp/Tests.antt =====
-- The packets of the unit tests of core/rtp.rs and core/rtp_refactored.rs, and instances.
use sentinel_video_receiver.Prelude.{
  ◌≡◌, refl, arith, true, some, [], ◌∷◌, Bytes, index, slice, be16, be32, ok, err,
}
use sentinel_video_receiver.Rtp.{
  invalid_padding, unsupported_version, skip_csrc, skip_extension, strip_padding, parse,
}
use sentinel_video_receiver.Rtp.Bounds.{InBuffer, parse-InBuffer}
use sentinel_video_receiver.Rtp.Wire.{Wire, encode}
use sentinel_video_receiver.Rtp.RoundTrip.{decoded, parse-encode}
use sentinel_video_receiver.Rtp.ZeroCopy
use sentinel_video_receiver.Rtp.ZeroCopy.Agree.{translate, copied, viewed, viewed-parse}
use sentinel_video_receiver.Prelude.{◌>>=◌, map_err, Ensures}

program : Unit {0}
unfolding skip_csrc skip_extension strip_padding parse index slice be16 be32
program = tt

-- `parse_supports_csrc_extension_and_padding`
abbrev packet : Bytes
packet =
    0xB1 ∷ 0xE0 ∷ 0x12 ∷ 0x34 ∷ 0x01 ∷ 0x02 ∷ 0x03 ∷ 0x04 ∷ 0xAA ∷ 0xBB ∷ 0xCC ∷ 0xDD ∷ 0x11 ∷ 0x22
    ∷ 0x33 ∷ 0x44 ∷ 0xBE ∷ 0xDE ∷ 0x00 ∷ 0x01 ∷ 0xDE ∷ 0xAD ∷ 0xBE ∷ 0xEF ∷ 0x09 ∷ 0x08 ∷ 0x07
    ∷ 0x00 ∷ 0x00 ∷ 0x00 ∷ 0x04 ∷ []

abbrev wire : Wire
wire = record {
  marker = true;
  payload_type = 96;
  sequence_number = 0x1234;
  timestamp = 0x01020304;
  ssrc = 0xAABBCCDD;
  csrcs = 0x11223344 ∷ [];
  extension = some (record { profile = 0xBEDE; words = 0xDEADBEEF ∷ [] });
  payload = 9 ∷ 8 ∷ 7 ∷ [];
  pad_len = 4;
}

parse-packet : parse packet ≡ ok (decoded wire)
unfolding program
parse-packet = refl

parse_rejects_invalid_rtp_version :
    parse (0x00 ∷ 0x60 ∷ 0 ∷ 1 ∷ 0 ∷ 0 ∷ 0 ∷ 1 ∷ 0 ∷ 0 ∷ 0 ∷ 1 ∷ []) ≡ err (unsupported_version 0)
unfolding program
parse_rejects_invalid_rtp_version = refl

parse_rejects_invalid_padding_length :
    parse (0xA0 ∷ 0x60 ∷ 0 ∷ 1 ∷ 0 ∷ 0 ∷ 0 ∷ 1 ∷ 0 ∷ 0 ∷ 0 ∷ 1 ∷ 0xAA ∷ 0xBB ∷ 0x04 ∷ [])
    ≡ err (invalid_padding 4)
unfolding program
parse_rejects_invalid_padding_length = refl

parse-encode_example : parse (encode wire) ≡ ok (decoded wire)
parse-encode_example = parse-encode wire (omega arith) (omega arith)

parse-InBuffer_example : Ensures (InBuffer packet) (parse packet)
parse-InBuffer_example = parse-InBuffer packet

viewed-parse_example :
    (ZeroCopy.parse packet >>= viewed)
    ≡ map_err (translate packet) (parse packet >>= λ p. ok (copied p))
viewed-parse_example = viewed-parse packet
