-- ===== src/H264/Depacketizer/StapA.antt =====
-- Aggregation packets: the STAP-A payloads that RFC 6184, section 5.7.1, lays out are exactly those
-- that the depacketizer takes.
use sentinel_video_receiver.Prelude.{
  ℕ, zero, suc, ◌+◌, ◌-◌, ◌≤◌, ◌<◌, ◌≡◌, refl, sym, ap, ◌∙◌, List, [], ◌∷◌, ◌++◌, arith, length,
  take, drop, Bytes, slice_lem, index_lem, be16_lem, word16, word16-append, to_be16, ok,
  append_assoc, append-nil, low_bits, length-append, take-append, drop-append, map,
}
use sentinel_video_receiver.H264.Nal.{annexb_start}
use sentinel_video_receiver.H264.Depacketizer.{
  H264Depacketizer, DepacketizeError, stap_a_loop, handle_stap_a, push_rtp_payload,
}

-- Each NAL behind its length in two bytes.
abbrev pub aggregate : List Bytes → Bytes
aggregate [] = []
aggregate (n ∷ ns) = to_be16 (length n) ++ (n ++ aggregate ns)

abbrev pub Sized : List Bytes → Type 0
Sized [] = Unit
Sized (n ∷ ns) = (0 < length n) × (length n < 65536) × Sized ns

abbrev pub annexb : Bytes → Bytes
annexb nal = annexb_start ++ nal

-- One round of the loop, at a NAL that is all there.
stap_a_loop-round :
    (fuel : ℕ) (payload : Bytes) (i n : ℕ) (nal : Bytes) (out : List Bytes)
    → word16 payload i ≡ n
    → 0 < n
    → i + 2 + n ≤ length payload
    → take n (drop (i + 2) payload) ≡ nal
    → stap_a_loop (suc fuel) payload i out
      ≡ stap_a_loop fuel payload (i + 2 + n) (out ++ (annexb nal ∷ []))
unfolding stap_a_loop
stap_a_loop-round fuel payload i n nal out e p h t =
    let cut : i + 2 + n - (i + 2) ≡ n = omega arith in
    ground (
      arith,
      be16_lem {E = DepacketizeError} payload i,
      slice_lem {E = DepacketizeError} payload (i + 2) (i + 2 + n),
    )

stap_a_loop-end :
    (fuel : ℕ) (payload : Bytes) (i : ℕ) (out : List Bytes)
    → i ≡ length payload
    → stap_a_loop (suc fuel) payload i out ≡ ok out
unfolding stap_a_loop
stap_a_loop-end fuel payload i out h = ground arith

stap_a_loop-aggregate :
    (ns : List Bytes) (fuel : ℕ) (pre : Bytes) (out : List Bytes)
    → Sized ns
    → length ns < fuel
    → stap_a_loop fuel (pre ++ aggregate ns) (length pre) out ≡ ok (out ++ map annexb ns)
stap_a_loop-aggregate ns zero pre out s f = absurd (omega arith)
stap_a_loop-aggregate [] (suc fuel) pre out s f =
    rw (append-nil, append-nil) (stap_a_loop-end fuel pre (length pre) out refl)
stap_a_loop-aggregate (n ∷ ns) (suc fuel) pre out (p, q, s) f =
    let buf = pre ++ aggregate (n ∷ ns) in
    let pre' = pre ++ (to_be16 (length n) ++ n) in
    let size : length pre' ≡ length pre + 2 + length n =
      omega (arith, length-append pre (to_be16 (length n) ++ n)) in
    let room : length pre + 2 + length n ≤ length buf =
      omega (arith, length-append pre (aggregate (n ∷ ns)), length-append n (aggregate ns)) in
    let word : word16 buf (length pre) ≡ length n =
      omega (arith, word16-append pre (aggregate (n ∷ ns))) in
    let behind : drop (length pre + 2) buf ≡ n ++ aggregate ns =
      ap (drop (length pre + 2)) (sym (append_assoc pre (to_be16 (length n)) (n ++ aggregate ns)))
      ∙ drop-append (length pre + 2) (pre ++ to_be16 (length n)) (n ++ aggregate ns)
          (length-append pre (to_be16 (length n))) in
    let regroup : buf ≡ pre' ++ aggregate ns = simp append_assoc in
    stap_a_loop-round fuel buf (length pre) (length n) n out word p room
      (rw behind (take-append (length n) n (aggregate ns) refl))
    ∙ rw (← size, regroup)
        (stap_a_loop-aggregate ns fuel pre' (out ++ (annexb n ∷ [])) s (omega arith))
    ∙ ap ok (append_assoc out (annexb n ∷ []) (map annexb ns))

length-aggregate : (ns : List Bytes) → length ns ≤ length (aggregate ns)
length-aggregate [] = omega arith
length-aggregate (n ∷ ns) = omega (arith, length-aggregate ns, length-append n (aggregate ns))

-- A payload with the type byte 24 and any NALs behind it, each of 1 to 65535 bytes and behind its
-- length, is taken apart: every NAL comes out once, in order and with a start code, and the state
-- is not touched.
pub push_rtp_payload-aggregate :
    (d : H264Depacketizer) (indicator : ℕ) (ns : List Bytes)
    → low_bits indicator 5 ≡ 24
    → Sized ns
    → push_rtp_payload d (indicator ∷ aggregate ns) ≡ (d, ok (map annexb ns))
unfolding push_rtp_payload handle_stap_a
push_rtp_payload-aggregate d indicator ns t s = ground (
  arith,
  index_lem {E = DepacketizeError} (indicator ∷ aggregate ns) 0,
  stap_a_loop-aggregate ns (suc (length (indicator ∷ aggregate ns))) (indicator ∷ []) [] s,
  length-aggregate ns,
)
