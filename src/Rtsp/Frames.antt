-- ===== src/Rtsp/Frames.antt =====
-- Interleaved frames (RFC 2326, 10.12), read back.
use sentinel_video_receiver.Prelude.{
  ℕ, ◌<◌, ◌≡◌, refl, arith, [], ◌∷◌, ◌++◌, length, Bytes, index, be16, word16, to_be16, ok,
}
use sentinel_video_receiver.Io.{Reader, read_prefix}
use sentinel_video_receiver.Rtsp.{RtspClient, frame_of, read_interleaved_frame}
use sentinel_video_receiver.Rtsp.Client.{client_pending, client_reader}

abbrev pub frame_bytes : ℕ → Bytes → Bytes
frame_bytes channel payload = (36 ∷ channel ∷ to_be16 (length payload)) ++ payload

frame_lem :
    (r : Reader) (s : r.State) (rtp_channel rtcp_channel channel : ℕ) (payload rest : Bytes)
    → length payload < 65536
    → r.pending s ≡ (36 ∷ []) ++ ((channel ∷ to_be16 (length payload)) ++ (payload ++ rest))
    → (s' : r.State) × (read_interleaved_frame r s rtp_channel rtcp_channel
        ≡ ok (frame_of rtp_channel rtcp_channel channel payload, s'))
      × (r.pending s' ≡ rest)
unfolding read_interleaved_frame index be16
frame_lem r s rtp_channel rtcp_channel channel payload rest h p =
    let hdr : Bytes = channel ∷ to_be16 (length payload) in
    let (s₁, first, left₁) = read_prefix r s (36 ∷ []) (hdr ++ (payload ++ rest)) p in
    let (s₂, second, left₂) = read_prefix r s₁ hdr (payload ++ rest) left₁ in
    let (s₃, third, left₃) = read_prefix r s₂ payload rest left₂ in
    let len : word16 hdr 1 ≡ length payload = omega (arith, h) in
    (s₃, rw (first, second, len, third) refl, left₃)

-- Let the bytes left over in a client, followed by those of its stream, be a frame and more, wherever
-- the two meet. Then `read_interleaved_frame` returns the frame, as what its channel says, and leaves
-- exactly the bytes behind it.
pub read_interleaved_frame-frame_bytes :
    (r : Reader) (c : RtspClient r) (rtp_channel rtcp_channel channel : ℕ) (payload rest : Bytes)
    → length payload < 65536
    → client_pending r c ≡ frame_bytes channel payload ++ rest
    → (c' : RtspClient r) × (read_interleaved_frame (client_reader r) c rtp_channel rtcp_channel
        ≡ ok (frame_of rtp_channel rtcp_channel channel payload, c'))
      × (client_pending r c' ≡ rest)
read_interleaved_frame-frame_bytes r c rtp_channel rtcp_channel channel payload rest h p =
    frame_lem (client_reader r) c rtp_channel rtcp_channel channel payload rest h p
