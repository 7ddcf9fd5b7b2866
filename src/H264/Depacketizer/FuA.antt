-- ===== src/H264/Depacketizer/FuA.antt =====
-- Fragmentation units: a NAL cut into FU-A payloads, as RFC 6184, section 5.8, lays them out, is
-- put together again.
use sentinel_video_receiver.Prelude.{
  ℕ, ◌+◌, ◌-◌, ◌%◌, ◌<◌, ◌≡◌, refl, ◌∙◌, true, false, List, [], ◌∷◌, ◌++◌, arith, length, Bytes,
  index_lem, slice_lem, ok, append_assoc, take-length, bit, low_bits, high_bits,
}
use sentinel_video_receiver.H264.Nal.{annexb_start}
use sentinel_video_receiver.H264.Depacketizer.{
  H264Depacketizer, DepacketizeError, Nals, fu_a_fragment, fu_a_header, handle_fu_a,
  push_rtp_payload,
}

-- The indicator keeps the top three bits of the NAL header, with type 28; the FU header has the
-- start and end bits and the NAL's type.
abbrev pub fragment : ℕ → ℕ → Bytes → Bytes
fragment header flags chunk = (high_bits header 5 + 28) ∷ (flags + low_bits header 5) ∷ chunk

abbrev pub concat : List Bytes → Bytes
concat [] = []
concat (c ∷ cs) = c ++ concat cs

-- The payloads of the fragments behind the first.
abbrev pub continuations : ℕ → List Bytes → Bytes → List Bytes
continuations header [] last = fragment header 64 last ∷ []
continuations header (c ∷ cs) last = fragment header 0 c ∷ continuations header cs last

abbrev pub fragments : ℕ → Bytes → List Bytes → Bytes → List Bytes
fragments header first mids last = fragment header 128 first ∷ continuations header mids last

-- The payloads one after the other; the NALs that come out, or the first failure.
abbrev and_then : Nals → H264Depacketizer × Nals → H264Depacketizer × Nals
and_then (ok out) (d, ok more) = (d, ok (out ++ more))
and_then (ok out) (d, other) = (d, other)
and_then other (d, more) = (d, other)

pub push_all : H264Depacketizer → List Bytes → H264Depacketizer × Nals
push_all d [] = (d, ok [])
push_all d (p ∷ ps) = let (d', out) = push_rtp_payload d p in and_then out (push_all d' ps)

-- One fragment, seen through both of its header bytes.
push-fragment :
    (d : H264Depacketizer) (header flags : ℕ) (chunk : Bytes)
    → header < 256
    → flags < 256
    → flags % 64 ≡ 0
    → push_rtp_payload d (fragment header flags chunk)
      ≡ fu_a_fragment d (bit flags 7) (bit flags 6) header chunk
unfolding push_rtp_payload handle_fu_a fu_a_header
push-fragment d header flags chunk h f m =
    let payload = fragment header flags chunk in
    let whole : length payload - 2 ≡ length chunk = omega arith in
    ground (
      arith,
      index_lem {E = DepacketizeError} payload 0,
      index_lem {E = DepacketizeError} payload 1,
      slice_lem {E = DepacketizeError} payload 2 (length payload),
      take-length chunk,
    )

push_all-cons :
    (d d' d'' : H264Depacketizer) (p : Bytes) (ps out more : List Bytes)
    → push_rtp_payload d p ≡ (d', ok out)
    → push_all d' ps ≡ (d'', ok more)
    → push_all d (p ∷ ps) ≡ (d'', ok (out ++ more))
unfolding push_all
push_all-cons d d' d'' p ps out more h k = rw h (rw k)

push_continuations :
    (header : ℕ) (mids : List Bytes) (last buf : Bytes)
    → header < 256
    → push_all (record { fu_active = true; fu_buf = buf }) (continuations header mids last)
      ≡ (record { fu_active = false; fu_buf = [] }, ok ((buf ++ (concat mids ++ last)) ∷ []))
unfolding fu_a_fragment
push_continuations header [] last buf h =
    push_all-cons _ _ _ _ [] _ []
      (push-fragment (record { fu_active = true; fu_buf = buf }) header 64 last h (omega arith)
        refl)
      (unfold push_all in refl)
push_continuations header (c ∷ cs) last buf h =
    push_all-cons _ _ _ _ _ [] _
      (push-fragment (record { fu_active = true; fu_buf = buf }) header 0 c h (omega arith) refl)
      (push_continuations header cs last (buf ++ c) h)
    ∙ simp append_assoc

-- A NAL of header `header` whose body is cut into two or more fragments, pushed in order, comes out
-- as one Annex-B NAL with the same header and body, whatever was under way before; nothing else
-- comes out, no fragment is refused, and the depacketizer is left idle.
pub push_all-fragments :
    (d : H264Depacketizer) (header : ℕ) (first : Bytes) (mids : List Bytes) (last : Bytes)
    → header < 256
    → push_all d (fragments header first mids last) ≡ (
      record { fu_active = false; fu_buf = [] },
      ok ((annexb_start ++ (header ∷ (first ++ (concat mids ++ last)))) ∷ []),
    )
unfolding fu_a_fragment
push_all-fragments d header first mids last h =
    push_all-cons _ _ _ _ _ [] _ (push-fragment d header 128 first h (omega arith) refl)
      (push_continuations header mids last (annexb_start ++ (header ∷ first)) h)
