-- ===== src/Rtp/RoundTrip.antt =====
-- `parse` reads back every packet that the writer of Wire puts out.
use sentinel_video_receiver.Prelude.{
  ℕ, zero, suc, ◌+◌, ◌-◌, ◌*◌, ◌/◌, ◌^◌, ◌≤◌, ◌<◌, ◌≡◌, refl, ap, ◌∙◌, Bool, true, false, arith,
  length, take, drop, get_or, Bytes, bit, low_bits, index_lem, be16_lem, ok, ltb, [], ◌∷◌, ◌++◌,
  Option, none, some, length-append, get_or-append, take-append, drop-append, replicate,
  append_assoc, append-nil,
}
use sentinel_video_receiver.Rtp.{
  RtpPacket, ParseError, skip_csrc, skip_extension, strip_padding, parse,
}
use sentinel_video_receiver.Rtp.Bounds.{packet_at, parse_body_steps, parse-eq-body}
use sentinel_video_receiver.Rtp.Wire.{
  Extension, Wire, Fits, flag, is_some, words_bytes, extension_bytes, ExtensionFits, padding_bytes,
  first_byte, fixed_header, encode, length-words_bytes, length-padding_bytes,
}

-- The packet that the writer was given, as the parser shows it.
abbrev pub decoded : Wire → RtpPacket
decoded w = record {
  version = 2;
  padding = ltb 0 w.pad_len;
  extension = is_some w.extension;
  csrc_count = length w.csrcs;
  marker = w.marker;
  payload_type = w.payload_type;
  sequence_number = w.sequence_number;
  timestamp = w.timestamp;
  ssrc = w.ssrc;
  payload = w.payload;
}

skip_extension-bytes :
    (x : Option Extension) (pre rest : Bytes)
    → ExtensionFits x
    → skip_extension (is_some x) (pre ++ (extension_bytes x ++ rest)) (length pre)
      ≡ ok (length pre + length (extension_bytes x))
unfolding skip_extension
skip_extension-bytes none pre rest f = ground arith
skip_extension-bytes (some e) pre rest f =
    let buf = pre ++ (extension_bytes (some e) ++ rest) in
    let size : length buf ≡ length pre + (4 + length e.words * 4) + length rest = omega (
      arith,
      length-append pre (extension_bytes (some e) ++ rest),
      length-append (words_bytes e.words) rest,
      length-words_bytes e.words,
    ) in
    let hi = get_or-append pre (extension_bytes (some e) ++ rest) 2 0 in
    let lo = get_or-append pre (extension_bytes (some e) ++ rest) 3 0 in
    ground (arith, be16_lem {E = ParseError} buf (length pre + 2), length-words_bytes e.words)

get_or-padding : (n k : ℕ) → get_or (replicate n 0 ++ (k ∷ [])) n 0 ≡ k
get_or-padding zero k = refl
get_or-padding (suc n) k = get_or-padding n k

strip_padding-bytes :
    (n : ℕ) (pre : Bytes) (off : ℕ)
    → off ≤ length pre
    → strip_padding (ltb 0 n) (pre ++ padding_bytes n) off ≡ ok (length pre)
unfolding strip_padding
strip_padding-bytes zero pre off h = rw append-nil
strip_padding-bytes (suc n) pre off h =
    let buf = pre ++ padding_bytes (suc n) in
    let size : length buf ≡ length pre + suc n =
      omega (arith, length-append pre (padding_bytes (suc n)), length-padding_bytes (suc n)) in
    let at : length buf - 1 ≡ length pre + n = omega arith in
    let last : get_or buf (length pre + n) 0 ≡ suc n =
      get_or-append pre (padding_bytes (suc n)) n 0 ∙ get_or-padding n (suc n) in
    ground (arith, index_lem {E = ParseError} buf (length buf - 1))

first_byte_fields :
    (p e : Bool) (n : ℕ)
    → n < 16
    → let b = 128 + flag 32 p + flag 16 e + n in
      (b / 2 ^ 6 ≡ 2) × (low_bits b 4 ≡ n) × (bit b 4 ≡ e) × (bit b 5 ≡ p)
first_byte_fields true true n h = ground arith
first_byte_fields true false n h = ground arith
first_byte_fields false true n h = ground arith
first_byte_fields false false n h = ground arith

second_byte_fields :
    (m : Bool) (n : ℕ) → n < 128 → let b = flag 128 m + n in (low_bits b 7 ≡ n) × (bit b 7 ≡ m)
second_byte_fields true n h = ground arith
second_byte_fields false n h = ground arith

module _ (w : Wire) (f : Fits w) (x : ExtensionFits w.extension) where
  head : Bytes
  head = fixed_header w ++ words_bytes w.csrcs

  tail : Bytes
  tail = w.payload ++ padding_bytes w.pad_len

  ext : Bytes
  ext = extension_bytes w.extension

  encode_lem : encode w ≡ head ++ (ext ++ tail)
  unfolding encode head ext tail
  encode_lem = refl

  length-head : length head ≡ 12 + length w.csrcs * 4
  unfolding head
  length-head = omega (arith, length-words_bytes w.csrcs)

  length-tail : length tail ≡ length w.payload + w.pad_len
  unfolding tail
  length-tail =
      omega
        (arith, length-append w.payload (padding_bytes w.pad_len), length-padding_bytes w.pad_len)

  length-encode : length (encode w) ≡ length head + length ext + length tail
  length-encode =
      rw encode_lem (omega (arith, length-append head (ext ++ tail), length-append ext tail))

  fields : (packet_at (encode w) w.payload ≡ decoded w)
  unfolding encode
  fields = ground (
    arith,
    first_byte_fields (ltb 0 w.pad_len) (is_some w.extension) (length w.csrcs),
    second_byte_fields w.marker w.payload_type,
  )

  csrc_step : skip_csrc (encode w) (length w.csrcs) 12 ≡ ok (length head)
  unfolding skip_csrc
  csrc_step = ground (arith, length-encode, length-head)

  extension_step :
      skip_extension (is_some w.extension) (encode w) (length head) ≡ ok (length head + length ext)
  unfolding ext
  extension_step = rw encode_lem (skip_extension-bytes w.extension head tail x)

  -- The bytes in front of the padding.
  front : Bytes
  front = (head ++ ext) ++ w.payload

  length-front : length front ≡ length head + length ext + length w.payload
  unfolding front
  length-front = omega (arith, length-append (head ++ ext) w.payload, length-append head ext)

  encode-front : encode w ≡ front ++ padding_bytes w.pad_len
  unfolding front tail
  encode-front = encode_lem ∙ simp append_assoc

  padding_step :
      strip_padding (ltb 0 w.pad_len) (encode w) (length head + length ext)
      ≡ ok (length head + length ext + length w.payload)
  padding_step =
      rw (encode-front, ← length-front)
        (strip_padding-bytes w.pad_len front (length head + length ext)
          (omega (arith, length-front)))

  payload_step :
      take
        (length head + length ext + length w.payload - (length head + length ext))
        (drop (length head + length ext) (encode w))
      ≡ w.payload
  unfolding tail
  payload_step =
      let n : length head + length ext + length w.payload - (length head + length ext)
          ≡ length w.payload =
        omega arith in
      let at : length (head ++ ext) ≡ length head + length ext = length-append head ext in
      let cut : encode w ≡ (head ++ ext) ++ tail = encode_lem ∙ simp append_assoc in
      rw (n, cut, drop-append (length head + length ext) (head ++ ext) tail at)
        (take-append (length w.payload) w.payload (padding_bytes w.pad_len) refl)

-- A packet laid out as RFC 3550 says, whatever its CSRC list, header extension, payload and
-- padding, with fields that fit, is parsed without error, and the result holds the fields, the
-- flags and exactly the payload bytes that were written.
pub parse-encode :
    (w : Wire) → Fits w → ExtensionFits w.extension → parse (encode w) ≡ ok (decoded w)
parse-encode w f x =
    let (v, n, e, p) =
      first_byte_fields (ltb 0 w.pad_len) (is_some w.extension) (length w.csrcs) f.csrcs_fit in
    let long : 12 ≤ length (encode w) = omega (arith, length-encode w f x, length-head w f x) in
    let b : get_or (encode w) 0 0 ≡ first_byte w = unfold encode in refl in
    let k = length (head w f x) in
    let off = k + length (ext w f x) in
    let end = off + length w.payload in
    parse-eq-body (encode w) long (rw b v)
    ∙ parse_body_steps (encode w) k off end (rw (b, n) (csrc_step w f x))
        (rw (b, e) (extension_step w f x)) (rw (b, p) (padding_step w f x)) (omega arith)
        (omega (arith, length-encode w f x, length-tail w f x))
    ∙ rw payload_step (ap ok (fields w f x))
