-- ===== src/Rtp/Bounds.antt =====
-- Where the parts of a packet lie, and that no index leaves the buffer.
use sentinel_video_receiver.Prelude.{
  ℕ, ◌+◌, ◌-◌, ◌%◌, ◌*◌, ◌/◌, ◌^◌, ◌≤◌, ◌<◌, ◌≡◌, ◌≢◌, refl, Bool, true, false, arith, length, take,
  drop, get_or, Bytes, bit, low_bits, index_lem, slice, slice_lem, be16_lem, be32_lem, word16,
  word32, ltb, le→ltb, dec_lt, ℕ_discrete, Outcome, ok, err, ◌>>=◌, ◌>>◌, bail_if, Ensures,
  Ensures-bind,
}
use sentinel_video_receiver.Rtp.{
  RtpPacket, ParseError, too_short, offset_beyond_end, unsupported_version, skip_csrc,
  skip_extension, strip_padding, parse,
}

pub skip_csrc_bounds :
    (buf : Bytes) (n off : ℕ)
    → Ensures (λ k. (k ≡ off + n * 4) × (k ≤ length buf)) (skip_csrc buf n off)
unfolding skip_csrc
skip_csrc_bounds buf n off = ground arith

pub skip_extension_bounds :
    (x : Bool) (buf : Bytes) (off : ℕ)
    → off ≤ length buf
    → Ensures (λ k. (off ≤ k) × (k ≤ length buf)) (skip_extension x buf off)
unfolding skip_extension
skip_extension_bounds false buf off h = omega arith
skip_extension_bounds true buf off h = ground (arith, be16_lem {E = ParseError} buf (off + 2))

pub strip_padding_bounds :
    (x : Bool) (buf : Bytes) (off : ℕ)
    → off ≤ length buf
    → Ensures (λ k. (off ≤ k) × (k ≤ length buf)) (strip_padding x buf off)
unfolding strip_padding
strip_padding_bounds false buf off h = omega arith
strip_padding_bounds true buf off h =
    ground (arith, index_lem {E = ParseError} buf (length buf - 1))

-- What the caller may rely on in a parsed packet.
pub record InBuffer (buf : Bytes) (p : RtpPacket) : Type 0 where
  pub off : ℕ
  pub end : ℕ
  pub after_csrc : 12 + p.csrc_count * 4 ≤ off
  pub ordered : off ≤ end
  pub inside : end ≤ length buf
  pub payload_lem : p.payload ≡ take (end - off) (drop off buf)
  pub version_lem : p.version ≡ 2
  pub csrc_bound : p.csrc_count < 16
  pub payload_type_bound : p.payload_type < 128

-- The packet that the fixed header gives, with the payload between two offsets.
abbrev pub packet_at : Bytes → Bytes → RtpPacket
packet_at buf payload = record {
  version = get_or buf 0 0 / 2 ^ 6;
  padding = bit (get_or buf 0 0) 5;
  extension = bit (get_or buf 0 0) 4;
  csrc_count = low_bits (get_or buf 0 0) 4;
  marker = bit (get_or buf 1 0) 7;
  payload_type = low_bits (get_or buf 1 0) 7;
  sequence_number = word16 buf 2;
  timestamp = word32 buf 4;
  ssrc = word32 buf 8;
  payload = payload;
}

-- `parse` with the bounds checks of the fixed header gone.
unfoldable pub parse_body : Bytes → Outcome ParseError RtpPacket
parse_body buf = do
  off ← skip_csrc buf (low_bits (get_or buf 0 0) 4) 12
  off ← skip_extension (bit (get_or buf 0 0) 4) buf off
  end ← strip_padding (bit (get_or buf 0 0) 5) buf off
  bail_if (ltb end off) (offset_beyond_end off end)
  payload ← slice buf off end
  ok (packet_at buf payload)

pub parse_body_steps :
    (buf : Bytes) (k off end : ℕ)
    → skip_csrc buf (low_bits (get_or buf 0 0) 4) 12 ≡ ok k
    → skip_extension (bit (get_or buf 0 0) 4) buf k ≡ ok off
    → strip_padding (bit (get_or buf 0 0) 5) buf off ≡ ok end
    → off ≤ end
    → end ≤ length buf
    → parse_body buf ≡ ok (packet_at buf (take (end - off) (drop off buf)))
unfolding parse_body
parse_body_steps buf k off end h g f ordered inside =
    rw (h, g, f, le→ltb off end ordered, slice_lem {E = ParseError} buf off end ordered inside)

pub parse-eq-body :
    (buf : Bytes) → 12 ≤ length buf → get_or buf 0 0 / 2 ^ 6 ≡ 2 → parse buf ≡ parse_body buf
unfolding parse parse_body
parse-eq-body buf h v = ground (
  arith,
  index_lem {E = ParseError} buf 0,
  index_lem {E = ParseError} buf 1,
  be16_lem {E = ParseError} buf 2,
  be32_lem {E = ParseError} buf 4,
  be32_lem {E = ParseError} buf 8,
)

pub parse_short : (buf : Bytes) → length buf < 12 → parse buf ≡ err (too_short (length buf))
unfolding parse
parse_short buf h = ground arith

pub parse_version :
    (buf : Bytes)
    → 12 ≤ length buf
    → get_or buf 0 0 / 2 ^ 6 ≢ 2
    → parse buf ≡ err (unsupported_version (get_or buf 0 0 / 2 ^ 6))
unfolding parse
parse_version buf h v =
    ground (arith, index_lem {E = ParseError} buf 0, index_lem {E = ParseError} buf 1)

parse_body-InBuffer :
    (buf : Bytes) → get_or buf 0 0 / 2 ^ 6 ≡ 2 → Ensures (InBuffer buf) (parse_body buf)
unfolding parse_body
parse_body-InBuffer buf v =
    Ensures-bind (λ k. (k ≡ 12 + b0 % 16 * 4) × (k ≤ length buf)) _ _ _
      (skip_csrc_bounds buf (b0 % 16) 12)
      λ k h.
        Ensures-bind (λ off. (k ≤ off) × (off ≤ length buf)) _ _ _
          (skip_extension_bounds (bit b0 4) buf k h.1)
          λ off g.
            Ensures-bind (λ end. (off ≤ end) × (end ≤ length buf)) _ _ _
              (strip_padding_bounds (bit b0 5) buf off g.1)
              λ end f.
                rw (le→ltb off end f.0, slice_lem buf off end f.0 f.1)
                  (record {
                    off = off;
                    end = end;
                    after_csrc = omega arith;
                    ordered = f.0;
                    inside = f.1;
                    payload_lem = refl;
                    version_lem = v;
                    csrc_bound = omega arith;
                    payload_type_bound = omega arith;
                  })
  where
    b0 : ℕ
    b0 = get_or buf 0 0

-- Of every byte sequence: parsing never indexes or slices out of range, and a packet that it
-- returns is of version 2, and its payload is the part of the buffer between two offsets, the
-- first at or behind the fixed header and the CSRC list, the second at most the buffer's length.
pub parse-InBuffer : (buf : Bytes) → Ensures (InBuffer buf) (parse buf)
parse-InBuffer buf = elim (dec_lt (length buf) 12) [
  | yes short ↦ rw (parse_short buf short) tt
  | no long ↦ elim (ℕ_discrete (get_or buf 0 0 / 2 ^ 6) 2) [
    | yes v ↦ rw (parse-eq-body buf (omega arith) v) (parse_body-InBuffer buf v)
    | no v ↦ rw (parse_version buf (omega arith) v) tt
  ]
]
