-- ===== src/H264/Depacketizer/Safety.antt =====
-- No payload makes the depacketizer panic, and the loop of `handle_stap_a` ends.
use sentinel_video_receiver.Prelude.{
  ℕ, zero, suc, ◌+◌, ◌-◌, ◌≤◌, ◌<◌, List, [], ◌∷◌, ◌++◌, arith, length, take, drop, Bytes, be16_lem,
  slice_lem, index_lem, word16, Safe,
}
use sentinel_video_receiver.H264.Nal.{annexb_start}
use sentinel_video_receiver.H264.Depacketizer.{
  H264Depacketizer, DepacketizeError, stap_a_loop, handle_stap_a, fu_a_fragment, fu_a_header,
  handle_fu_a, push_rtp_payload,
}

stap_a_loop-Safe :
    (fuel : ℕ) (payload : Bytes) (i : ℕ) (out : List Bytes)
    → i ≤ length payload
    → length payload < fuel + i
    → Safe (stap_a_loop fuel payload i out)
unfolding stap_a_loop
stap_a_loop-Safe zero payload i out h f = absurd (omega arith)
stap_a_loop-Safe (suc fuel) payload i out h f =
    let n = word16 payload i in
    ground (
      arith,
      be16_lem {E = DepacketizeError} payload i,
      slice_lem {E = DepacketizeError} payload (i + 2) (i + 2 + n),
      stap_a_loop-Safe fuel payload (i + 2 + n)
          (out ++ ((annexb_start ++ take (i + 2 + n - (i + 2)) (drop (i + 2) payload)) ∷ [])),
    )

handle_stap_a-Safe : (payload : Bytes) → 1 ≤ length payload → Safe (handle_stap_a payload)
unfolding handle_stap_a
handle_stap_a-Safe payload h = stap_a_loop-Safe (suc (length payload)) payload 1 [] h (omega arith)

handle_fu_a-Safe : (d : H264Depacketizer) (payload : Bytes) → Safe (handle_fu_a d payload).1
unfolding handle_fu_a fu_a_header fu_a_fragment
handle_fu_a-Safe d payload = ground (
  arith,
  index_lem {E = DepacketizeError} payload 0,
  index_lem {E = DepacketizeError} payload 1,
  slice_lem {E = DepacketizeError} payload 2 (length payload),
)

-- Whatever the state and the payload, `push_rtp_payload` indexes and slices inside the payload, and
-- the loop of its STAP-A branch ends within the fuel: it returns NALs or an error value.
pub push_rtp_payload-Safe :
    (d : H264Depacketizer) (payload : Bytes) → Safe (push_rtp_payload d payload).1
unfolding push_rtp_payload
push_rtp_payload-Safe d [] = tt
push_rtp_payload-Safe d (b ∷ bs) = ground (
  arith,
  index_lem {E = DepacketizeError} (b ∷ bs) 0,
  handle_stap_a-Safe (b ∷ bs),
  handle_fu_a-Safe d (b ∷ bs),
)
