-- ===== src/Rtsp.antt =====
-- RTP packets interleaved in an RTSP connection: `read_exact_bytes` of
-- sentinel_rtp_cam/src/rtsp/rtsp.rs and sentinel_rtp_cam/src/rtsp/interleaved.rs.
pub mod Client
pub mod Receiver
pub mod Response
pub mod Frames
mod Tests
use sentinel_video_receiver.Prelude.{
  ℕ, zero, suc, ◌+◌, ◌-◌, min, Bool, true, false, not, ◌&&◌, List, [], ◌∷◌, ◌++◌, ltb, ◌==◌,
  if◌then◌else◌, length, take, drop, is_empty, Bytes, index, be16, Outcome, ok, err, panic, ◌>>=◌,
  ◌>>◌, bail_if, map_err,
}
use sentinel_video_receiver.Io.{Reader}

-- The bytes read and not used yet, in front of the stream.
pub record RtspClient (r : Reader) : Type 0 where
  pub stream : r.State
  pub leftover : Bytes

-- The `while` of `read_exact_bytes`: what is read, and what is left over.
unfoldable pub leftover_loop : ℕ → ℕ → Bytes → Bytes → Bytes × Bytes
leftover_loop zero n out leftover = (out, leftover)
leftover_loop (suc fuel) n out leftover =
    let taken = min (n - length out) (length leftover) in
    let rest = leftover_loop fuel n (out ++ take taken leftover) (drop taken leftover) in
    if ltb (length out) n && not (is_empty leftover) then rest else (out, leftover)

module _ (r : Reader) where
  unfoldable pub read_exact_bytes : RtspClient r → ℕ → Outcome r.Error (Bytes × RtspClient r)
  read_exact_bytes c n =
      let (out, leftover) = leftover_loop (suc n) n [] c.leftover in
      if ltb (length out) n
      then (do
        (buf, stream) ← r.read_exact c.stream (n - length out)
        ok (out ++ buf, record { stream = stream; leftover = leftover }))
      else ok (out, record { stream = c.stream; leftover = leftover })

pub data InterleavedFrame : Type 0 where
  rtp rtcp : Bytes → InterleavedFrame
  unknown : ℕ → Bytes → InterleavedFrame

pub data FrameError (E : Type 0) : Type 0 where
  io : E → FrameError E
  expected_dollar : ℕ → FrameError E

unfoldable pub frame_of : ℕ → ℕ → ℕ → Bytes → InterleavedFrame
frame_of rtp_channel rtcp_channel channel payload =
    if channel == rtp_channel
    then rtp payload
    else if channel == rtcp_channel
    then rtcp payload
    else unknown channel payload

-- `read_interleaved_frame`, over what the client reads.
module _ (r : Reader) where
  unfoldable pub read_interleaved_frame :
      r.State → ℕ → ℕ → Outcome (FrameError r.Error) (InterleavedFrame × r.State)
  read_interleaved_frame s rtp_channel rtcp_channel = do
    (b, s) ← map_err io (r.read_exact s 1)
    first ← index b 0
    bail_if (not (first == 36)) (expected_dollar first)
    (hdr, s) ← map_err io (r.read_exact s 3)
    channel ← index hdr 0
    len ← be16 hdr 1
    (payload, s) ← map_err io (r.read_exact s len)
    ok (frame_of rtp_channel rtcp_channel channel payload, s)
