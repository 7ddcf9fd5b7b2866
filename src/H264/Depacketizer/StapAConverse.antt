-- ===== src/H264/Depacketizer/StapAConverse.antt =====
-- What `handle_stap_a` takes is an aggregation packet.
use sentinel_video_receiver.Prelude.{
  ℕ, zero, suc, ◌+◌, ◌-◌, ◌/◌, ◌%◌, ◌≤◌, ◌<◌, ◌≡◌, refl, sym, ap, ◌∙◌, List, [], ◌∷◌, ◌++◌, arith,
  length, take, drop, Bytes, slice_lem, index_lem, be16_lem, word16, ok, panic, append_assoc,
  append-nil, take-append-drop, low_bits, get_or, length-take, length-drop, drop-drop, map, ◌⊎◌,
  inl, inr, AllBytes,
}
use native.Mathlib.Nat.{suc-add}
use sentinel_video_receiver.H264.Depacketizer.{
  H264Depacketizer, DepacketizeError, stap_a_loop, handle_stap_a, push_rtp_payload,
}
use sentinel_video_receiver.H264.Depacketizer.StapA.{aggregate, Sized, annexb}

-- The NAL that a round at `i` reads.
abbrev nal_at : Bytes → ℕ → Bytes
nal_at payload i = take (word16 payload i) (drop (i + 2) payload)

stap_a_loop-ok :
    (fuel : ℕ) (payload : Bytes) (i : ℕ) (out : List Bytes) {r : List Bytes}
    → i ≤ length payload
    → stap_a_loop (suc fuel) payload i out ≡ ok r
    → ((i ≡ length payload) × (r ≡ out))
      ⊎ ((0 < word16 payload i)
          × (i + 2 + word16 payload i ≤ length payload)
          × (stap_a_loop fuel payload
                (i + 2 + word16 payload i)
                (out ++ (annexb (nal_at payload i) ∷ []))
              ≡ ok r))
unfolding stap_a_loop
stap_a_loop-ok fuel payload i out h e =
    let n = word16 payload i in
    let cut : i + 2 + n - (i + 2) ≡ n = omega arith in
    ground (
      arith,
      be16_lem {E = DepacketizeError} payload i,
      slice_lem {E = DepacketizeError} payload (i + 2) (i + 2 + n),
    )

AllBytes-get_or : (xs : Bytes) (i : ℕ) → AllBytes xs → get_or xs i 0 < 256
AllBytes-get_or [] i h = omega arith
AllBytes-get_or (x ∷ xs) zero h = h.0
AllBytes-get_or (x ∷ xs) (suc i) h = AllBytes-get_or xs i h.1

drop-two :
    (xs : Bytes) (i : ℕ)
    → i + 2 ≤ length xs
    → drop i xs ≡ get_or xs i 0 ∷ get_or xs (i + 1) 0 ∷ drop (i + 2) xs
drop-two [] i h = absurd (omega arith)
drop-two (x ∷ []) i h = absurd (omega arith)
drop-two (x ∷ y ∷ xs) zero h = refl
drop-two (x ∷ y ∷ xs) (suc i) h = simp suc-add (drop-two (y ∷ xs) i (omega arith))

drop-length : (xs : Bytes) → drop (length xs) xs ≡ []
drop-length [] = refl
drop-length (x ∷ xs) = drop-length xs

record Taken (payload : Bytes) (i : ℕ) (out r : List Bytes) : Type 0 where
  nals : List Bytes
  sized : Sized nals
  layout : drop i payload ≡ aggregate nals
  result : r ≡ out ++ map annexb nals

-- One NAL in front of those that the rest of the loop takes.
Taken-cons :
    (payload : Bytes) (i : ℕ) (out : List Bytes) {r : List Bytes}
    → AllBytes payload
    → 0 < word16 payload i
    → i + 2 + word16 payload i ≤ length payload
    → Taken payload (i + 2 + word16 payload i) (out ++ (annexb (nal_at payload i) ∷ [])) r
    → Taken payload i out r
Taken-cons payload i out b p h t =
    let n = word16 payload i in
    let size : length (nal_at payload i) ≡ n =
      omega (arith, length-take n (drop (i + 2) payload), length-drop (i + 2) payload) in
    let hi = AllBytes-get_or payload i b in
    let lo = AllBytes-get_or payload (i + 1) b in
    let high : get_or payload i 0 ≡ length (nal_at payload i) / 256 % 256 = omega arith in
    let low : get_or payload (i + 1) 0 ≡ length (nal_at payload i) % 256 = omega arith in
    let rest : drop (i + 2) payload ≡ nal_at payload i ++ aggregate t.nals =
      sym (take-append-drop n (drop (i + 2) payload))
      ∙ ap (◌++◌ (nal_at payload i)) (drop-drop (i + 2) n (i + 2 + n) payload refl ∙ t.layout) in
    record {
      nals = nal_at payload i ∷ t.nals;
      sized = (omega arith, omega arith, t.sized);
      layout = cc (drop-two payload i (omega arith));
      result = t.result ∙ append_assoc out (annexb (nal_at payload i) ∷ []) (map annexb t.nals);
    }

no_fuel : (payload : Bytes) (i : ℕ) (out : List Bytes) → stap_a_loop zero payload i out ≡ panic
unfolding stap_a_loop
no_fuel payload i out = refl

stap_a_loop-Taken :
    (fuel : ℕ) (payload : Bytes) (i : ℕ) (out : List Bytes) {r : List Bytes}
    → AllBytes payload
    → i ≤ length payload
    → stap_a_loop fuel payload i out ≡ ok r
    → Taken payload i out r
stap_a_loop-Taken zero payload i out b h e = cc (no_fuel payload i out)
stap_a_loop-Taken (suc fuel) payload i out b h e = elim (stap_a_loop-ok fuel payload i out h e) [
  | inl (at_end, same) ↦ record {
    nals = [];
    sized = tt;
    layout = rw at_end (drop-length payload);
    result = same ∙ sym (append-nil out);
  }
  | inr (p, room, more) ↦ Taken-cons payload i out b p room (
      stap_a_loop-Taken fuel payload (i + 2 + word16 payload i)
        (out ++ (annexb (nal_at payload i) ∷ [])) b room more)
]

-- A payload of type 24, made of bytes, that the depacketizer takes without error is its indicator
-- with an aggregate of NALs of 1 to 65535 bytes behind it, and the result is those NALs, in order
-- and with start codes. So a zero length, a length past the end and a trailing byte are refused.
pub push_rtp_payload-ok_aggregate :
    (d : H264Depacketizer) (indicator : ℕ) (rest : Bytes) {r : List Bytes}
    → low_bits indicator 5 ≡ 24
    → AllBytes (indicator ∷ rest)
    → (push_rtp_payload d (indicator ∷ rest)).1 ≡ ok r
    → (ns : List Bytes) × Sized ns × (rest ≡ aggregate ns) × (r ≡ map annexb ns)
unfolding push_rtp_payload handle_stap_a
push_rtp_payload-ok_aggregate d indicator rest {r} t b e =
    let payload = indicator ∷ rest in
    let run : stap_a_loop (suc (length payload)) payload 1 [] ≡ ok r =
      ground (arith, index_lem {E = DepacketizeError} payload 0) in
    let taken = stap_a_loop-Taken (suc (length payload)) payload 1 [] b (omega arith) run in
    (taken.nals, taken.sized, taken.layout, taken.result)
