-- ===== src/Rtsp/Receiver/Losses.antt =====
-- What the receiver of sentinel_rtp_cam/src/rtsp/rtsp_receiver_tcp.rs sends when packets are lost.
use sentinel_video_receiver.Prelude.{◌≡◌, Bool, true, false, ◌||◌, Option, some, Outcome, ok, Bytes}
use sentinel_video_receiver.Rtp
use sentinel_video_receiver.Rtp.{RtpPacket, ParseError}
use sentinel_video_receiver.H264.Nal.{nal_type_from_annexb, annexb_from_raw_nal}
use sentinel_video_receiver.H264.Depacketizer.{Nals, push_rtp_payload}
use sentinel_video_receiver.H264.SyncGate
use sentinel_video_receiver.H264.SyncGate.{H264SyncGate, push_nal}
use sentinel_video_receiver.H264.SyncGate.Start.{Start}
use sentinel_video_receiver.Live.Stream.Messages.{out_of_sequence}
use sentinel_video_receiver.Rtsp.{InterleavedFrame, rtp}
use sentinel_video_receiver.Rtsp.Receiver.{Receiver}

-- Parameter sets out of a session's description, of their types.
abbrev pub IsSprop : Option Bytes → Option Bytes → Type 0
IsSprop (some sps) (some pps) =
    (nal_type_from_annexb (annexb_from_raw_nal sps) ≡ some 7)
    × (nal_type_from_annexb (annexb_from_raw_nal pps) ≡ some 8)
IsSprop _ _ = Unit

-- A frame at which the input is lost: a packet that cannot be read, is out of sequence, or has a
-- payload that cannot be read.
abbrev is_bad : Nals → Bool
is_bad (ok nals) = false
is_bad _ = true

abbrev loses_packet : Receiver → Outcome ParseError RtpPacket → Bool
loses_packet r (ok pkt) =
    out_of_sequence pkt.sequence_number r.expected_seq
    || is_bad (push_rtp_payload r.dep pkt.payload).1
loses_packet r _ = true

abbrev pub loses : Receiver → InterleavedFrame → Bool
loses r (rtp bytes) = loses_packet r (Rtp.parse bytes)
loses r _ = false
