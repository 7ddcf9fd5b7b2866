-- ===== src/H264/Depacketizer.antt =====
-- sentinel_rtp_cam/src/core/h264_depacketize.rs: NAL units out of RTP payloads (RFC 6184). A method
-- returns the new state and its result. `panic` is an index or a slice out of range, or the loop of
-- `handle_stap_a` without fuel.
pub mod Safety
pub mod StapAConverse
pub mod StapA
pub mod FuA
use sentinel_video_receiver.Prelude.{
  ℕ, zero, suc, ◌+◌, ◌-◌, ◌*◌, ◌/◌, ◌%◌, ◌^◌, Bool, true, false, not, ◌&&◌, List, [], ◌∷◌, ◌++◌,
  ltb, leb, ◌==◌, if◌then◌else◌, length, is_empty, Bytes, bit, low_bits, high_bits, index, slice,
  be16, Outcome, ok, err, panic, ◌>>=◌, ◌>>◌, bail_if,
}
use sentinel_video_receiver.H264.Nal.{annexb_start}

pub record H264Depacketizer : Type 0 where
  pub fu_active : Bool
  pub fu_buf : Bytes

-- One constructor for each `bail!`, with the numbers of its text.
pub data DepacketizeError : Type 0 where
  unsupported_nal_type : ℕ → DepacketizeError
  zero_length_nal : DepacketizeError
  nal_too_long : ℕ → ℕ → DepacketizeError
  trailing_bytes : ℕ → DepacketizeError
  fu_a_too_short continuation_without_start : DepacketizeError

abbrev pub Nals : Type 0
Nals = Outcome DepacketizeError (List Bytes)

unfoldable pub new : H264Depacketizer
new = record { fu_active = false; fu_buf = [] }

unfoldable pub reset : H264Depacketizer → H264Depacketizer
reset d = record { fu_active = false; fu_buf = [] }

-- What stands behind the `while`.
abbrev stap_a_end : Bytes → ℕ → List Bytes → Nals
stap_a_end payload i out = do
  bail_if (not (i == length payload)) (trailing_bytes (length payload - i))
  ok out

-- The `while` of `handle_stap_a`. Each round moves `i` by three or more.
unfoldable pub stap_a_loop : ℕ → Bytes → ℕ → List Bytes → Nals
stap_a_loop zero payload i out = panic
stap_a_loop (suc fuel) payload i out =
    if leb (i + 2) (length payload)
    then (do
      nal_len ← be16 payload i
      let i' = i + 2
      bail_if (nal_len == 0) zero_length_nal
      bail_if (ltb (length payload) (i' + nal_len)) (nal_too_long nal_len (length payload - i'))
      nal ← slice payload i' (i' + nal_len)
      stap_a_loop fuel payload (i' + nal_len) (out ++ ((annexb_start ++ nal) ∷ [])))
    else stap_a_end payload i out

unfoldable pub handle_stap_a : Bytes → Nals
handle_stap_a payload = stap_a_loop (suc (length payload)) payload 1 []

-- The branches behind the header of a fragment: `start`, `end` and the reconstructed NAL header.
unfoldable pub fu_a_fragment : H264Depacketizer → Bool → Bool → ℕ → Bytes → H264Depacketizer × Nals
fu_a_fragment d start end header fu_payload =
    if start
    then (record { fu_active = true; fu_buf = annexb_start ++ (header ∷ fu_payload) }, ok [])
    else if not d.fu_active
    then (d, err continuation_without_start)
    else if end
    then (record { fu_active = false; fu_buf = [] }, ok ((d.fu_buf ++ fu_payload) ∷ []))
    else (record d { fu_buf = d.fu_buf ++ fu_payload }, ok [])

-- The reads of the two header bytes; the third part is `&payload[2..]`.
unfoldable pub fu_a_header : Bytes → Outcome DepacketizeError (ℕ × ℕ × Bytes)
fu_a_header payload = do
  bail_if (ltb (length payload) 2) fu_a_too_short
  fu_indicator ← index payload 0
  fu_header ← index payload 1
  fu_payload ← slice payload 2 (length payload)
  ok (fu_indicator, fu_header, fu_payload)

abbrev fu_a_dispatch :
    H264Depacketizer → Outcome DepacketizeError (ℕ × ℕ × Bytes) → H264Depacketizer × Nals
fu_a_dispatch d (ok (fu_indicator, fu_header, fu_payload)) =
    fu_a_fragment d (bit fu_header 7) (bit fu_header 6)
      (high_bits fu_indicator 5 + low_bits fu_header 5) fu_payload
fu_a_dispatch d (err e) = (d, err e)
fu_a_dispatch d panic = (d, panic)

unfoldable pub handle_fu_a : H264Depacketizer → Bytes → H264Depacketizer × Nals
handle_fu_a d payload = fu_a_dispatch d (fu_a_header payload)

abbrev push_nal_type :
    H264Depacketizer → Bytes → Outcome DepacketizeError ℕ → H264Depacketizer × Nals
push_nal_type d payload (ok first) =
    let nal_type = low_bits first 5 in
    if leb 1 nal_type && leb nal_type 23
    then (d, ok ((annexb_start ++ payload) ∷ []))
    else if nal_type == 24
    then (d, handle_stap_a payload)
    else if nal_type == 28
    then handle_fu_a d payload
    else (d, err (unsupported_nal_type nal_type))
push_nal_type d payload (err e) = (d, err e)
push_nal_type d payload panic = (d, panic)

unfoldable pub push_rtp_payload : H264Depacketizer → Bytes → H264Depacketizer × Nals
push_rtp_payload d payload =
    if is_empty payload then (d, ok []) else push_nal_type d payload (index payload 0)
