-- ===== src/Rtp/ZeroCopy/Agree.antt =====
-- The two RTP parsers, core/rtp.rs and core/rtp_refactored.rs, against each other.
use sentinel_video_receiver.Prelude.{
  ℕ, ◌+◌, ◌-◌, ◌/◌, ◌^◌, ◌≤◌, ◌<◌, ◌≡◌, ◌≢◌, Bool, arith, length, get_or, Bytes, bit, low_bits,
  index_lem, slice_lem, be16_lem, be32_lem, word16, word32, Outcome, ok, err, ◌>>=◌, ◌>>◌, bail_if,
  map_err, map_err-bind, >>=_assoc, le→ltb, dec_lt, ℕ_discrete, ltb,
}
use sentinel_video_receiver.Rtp
use sentinel_video_receiver.Rtp.{ParseError}
use sentinel_video_receiver.Rtp.Bounds.{
  parse_body, parse-eq-body, parse_short, parse_version, skip_csrc_bounds, skip_extension_bounds,
  strip_padding_bounds,
}
use sentinel_video_receiver.Rtp.ZeroCopy.{
  RtpError, RtpPacket, packet_too_short, unsupported_version, invalid_csrc_list, invalid_extension,
  invalid_padding, skip_csrc, skip_extension, strip_padding, parse, payload,
}

-- The variant of `RtpError` for each message of the other parser.
abbrev pub translate : Bytes → ParseError → RtpError
translate buf (Rtp.too_short n) = packet_too_short n
translate buf (Rtp.unsupported_version v) = unsupported_version v
translate buf Rtp.short_csrc = invalid_csrc_list
translate buf Rtp.short_extension_header = invalid_extension
translate buf Rtp.short_extension_data = invalid_extension
translate buf Rtp.empty_padding = invalid_padding 0
translate buf (Rtp.invalid_padding n) = invalid_padding n
translate buf (Rtp.offset_beyond_end off end) = packet_too_short (length buf)

-- What both kinds of packet tell.
pub record Media : Type 0 where
  pub marker : Bool
  pub payload_type : ℕ
  pub sequence_number : ℕ
  pub timestamp : ℕ
  pub ssrc : ℕ
  pub content : Bytes

pub copied : Rtp.RtpPacket → Media
copied p = record {
  marker = p.marker;
  payload_type = p.payload_type;
  sequence_number = p.sequence_number;
  timestamp = p.timestamp;
  ssrc = p.ssrc;
  content = p.payload;
}

pub viewed : RtpPacket → Outcome RtpError Media
viewed p = do
  bytes ← payload p
  ok (record {
    marker = p.marker;
    payload_type = p.payload_type;
    sequence_number = p.sequence_number;
    timestamp = p.timestamp;
    ssrc = p.ssrc;
    content = bytes;
  })

module _ (buf : Bytes) where
  skip_csrc_agree :
      (n off : ℕ) → skip_csrc buf n off ≡ map_err (translate buf) (Rtp.skip_csrc buf n off)
  unfolding skip_csrc Rtp.skip_csrc
  skip_csrc_agree n off = ground arith

  skip_extension_agree :
      (x : Bool) (off : ℕ)
      → skip_extension x buf off ≡ map_err (translate buf) (Rtp.skip_extension x buf off)
  unfolding skip_extension Rtp.skip_extension
  skip_extension_agree x off =
      ground (arith, be16_lem {E = ParseError} buf (off + 2), be16_lem {E = RtpError} buf (off + 2))

  strip_padding_agree :
      (x : Bool) (off : ℕ)
      → strip_padding x buf off ≡ map_err (translate buf) (Rtp.strip_padding x buf off)
  unfolding strip_padding Rtp.strip_padding
  strip_padding_agree x off = ground (
    arith,
    index_lem {E = ParseError} buf (length buf - 1),
    index_lem {E = RtpError} buf (length buf - 1),
  )

  zero_copy_body : Outcome RtpError RtpPacket
  zero_copy_body = do
    offset ← skip_csrc buf (low_bits b0 4) 12
    offset ← skip_extension (bit b0 4) buf offset
    payload_end ← strip_padding (bit b0 5) buf offset
    bail_if (ltb payload_end offset) (packet_too_short (length buf))
    ok (record {
      bytes = buf;
      payload_offset = offset;
      payload_len = payload_end - offset;
      sequence_number = word16 buf 2;
      timestamp = word32 buf 4;
      ssrc = word32 buf 8;
      marker = bit b1 7;
      payload_type = low_bits b1 7;
    })
    where
      b0 : ℕ
      b0 = get_or buf 0 0

      b1 : ℕ
      b1 = get_or buf 1 0

  parse-eq-body_zero_copy :
      12 ≤ length buf → get_or buf 0 0 / 2 ^ 6 ≡ 2 → parse buf ≡ zero_copy_body
  unfolding parse zero_copy_body
  parse-eq-body_zero_copy h v = ground (
    arith,
    index_lem {E = RtpError} buf 0,
    index_lem {E = RtpError} buf 1,
    be16_lem {E = RtpError} buf 2,
    be32_lem {E = RtpError} buf 4,
    be32_lem {E = RtpError} buf 8,
  )

  zero_copy_short : length buf < 12 → parse buf ≡ err (packet_too_short (length buf))
  unfolding parse
  zero_copy_short h = ground arith

  zero_copy_version :
      12 ≤ length buf
      → get_or buf 0 0 / 2 ^ 6 ≢ 2
      → parse buf ≡ err (unsupported_version (get_or buf 0 0 / 2 ^ 6))
  unfolding parse
  zero_copy_version h v =
      ground (arith, index_lem {E = RtpError} buf 0, index_lem {E = RtpError} buf 1)

  body_agree :
      (zero_copy_body >>= viewed) ≡ map_err (translate buf) (parse_body buf >>= λ p. ok (copied p))
  unfolding zero_copy_body parse_body viewed copied payload
  body_agree = simp >>=_assoc (
      map_err-bind _ _ _ _ _ (skip_csrc_agree _ 12) λ k h.
        map_err-bind _ _ _ _ _ (skip_extension_agree _ k) λ off g.
          map_err-bind _ _ _ _ _ (strip_padding_agree _ off) λ end f.
            let within = rw h at (skip_csrc_bounds buf (low_bits b0 4) 12) in
            let (_, fits) = rw g at (skip_extension_bounds (bit b0 4) buf k within.1) in
            let (ordered, inside) = rw f at (strip_padding_bounds (bit b0 5) buf off fits) in
            let whole : off + (end - off) ≡ end = omega arith in
            rw (
              le→ltb off end ordered,
              whole,
              slice_lem {E = RtpError} buf off end ordered inside,
              slice_lem {E = ParseError} buf off end ordered inside,
            ))
    where
      b0 : ℕ
      b0 = get_or buf 0 0

-- For every byte sequence the two parsers agree: both return a packet, with the same marker,
-- payload type, sequence number, timestamp, SSRC and payload bytes, or both fail, and the error of
-- the zero-copy parser is the variant for the message of the other.
pub viewed-parse :
    (buf : Bytes)
    → (parse buf >>= viewed) ≡ map_err (translate buf) (Rtp.parse buf >>= λ p. ok (copied p))
viewed-parse buf = elim (dec_lt (length buf) 12) [
  | yes short ↦ rw (parse_short buf short, zero_copy_short buf short)
  | no long ↦ elim (ℕ_discrete (get_or buf 0 0 / 2 ^ 6) 2) [
    | yes v ↦
        rw (parse-eq-body buf (omega arith) v, parse-eq-body_zero_copy buf (omega arith) v)
          (body_agree buf)
    | no v ↦ rw (parse_version buf (omega arith) v, zero_copy_version buf (omega arith) v)
  ]
]
