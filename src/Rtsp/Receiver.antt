-- ===== src/Rtsp/Receiver.antt =====
-- The loops of sentinel_rtp_cam/src/rtsp/rtsp_receiver_tcp.rs and rtsp_receiver_udp.rs, from packets to
-- NALs, behind the set-up of their sessions. Sending on a channel is `try_send`, whose result is dropped;
-- the model gives what is sent.
pub mod Sources
pub mod Starts
pub mod Losses
use sentinel_video_receiver.Prelude.{
  ℕ, ◌+◌, ◌%◌, ◌≡◌, Bool, true, false, not, ◌&&◌, Option, none, some, List, [], ◌∷◌, ◌++◌, map,
  ◌==◌, if◌then◌else◌, Outcome, ok, err, panic, Bytes,
}
use sentinel_video_receiver.Rtp
use sentinel_video_receiver.Rtp.{RtpPacket, ParseError}
use sentinel_video_receiver.H264.Nal.{VideoNal, annexb_from_raw_nal}
use sentinel_video_receiver.H264.Depacketizer
use sentinel_video_receiver.H264.Depacketizer.{H264Depacketizer, Nals, push_rtp_payload}
use sentinel_video_receiver.H264.SyncGate
use sentinel_video_receiver.H264.SyncGate.{H264SyncGate}
use sentinel_video_receiver.Live.Stream.Messages.{gated, out_of_sequence}
use sentinel_video_receiver.Rtsp.{InterleavedFrame, rtp, rtcp, unknown}

-- The variables of both loops.
pub record Receiver : Type 0 where
  pub dep : H264Depacketizer
  pub gate : H264SyncGate
  pub expected_seq : Option ℕ

-- `sprop_sps` and `sprop_pps` of the session's description.
abbrev pub with_sprop : Option Bytes → Option Bytes → H264SyncGate → H264SyncGate
with_sprop (some sps) (some pps) gate =
    SyncGate.set_sprop_param_sets gate (annexb_from_raw_nal sps) (annexb_from_raw_nal pps)
with_sprop _ _ gate = gate

unfoldable pub new : Bool → Option Bytes → Option Bytes → Receiver
new require_idr_sync sps pps = record {
  dep = Depacketizer.new;
  gate = with_sprop sps pps (SyncGate.new require_idr_sync);
  expected_seq = none;
}

-- `dep.reset()`, `gate.reset()` and the sequence number expected next.
unfoldable pub restart : Option ℕ → Receiver → Receiver
restart expected_seq r = record {
  dep = Depacketizer.reset r.dep;
  gate = SyncGate.reset r.gate;
  expected_seq = expected_seq;
}

abbrev pub on_pushed : Receiver → Nals → Receiver × List Bytes
on_pushed r (ok nals) = let (gate, out) = gated nals (r.gate, []) in (record r { gate = gate }, out)
on_pushed r _ = (restart none r, [])

-- A packet that was parsed: from the continuity check on.
unfoldable pub on_packet : Receiver → RtpPacket → Receiver × List Bytes
on_packet r pkt =
    let next = some ((pkt.sequence_number + 1) % 65536) in
    if out_of_sequence pkt.sequence_number r.expected_seq
    then (restart next r, [])
    else (let (dep, pushed) = push_rtp_payload r.dep pkt.payload in
        on_pushed (record r { dep = dep; expected_seq = next }) pushed)

abbrev pub on_parsed : Receiver → Outcome ParseError RtpPacket → Receiver × List Bytes
on_parsed r (ok pkt) = on_packet r pkt
on_parsed r _ = (restart none r, [])

-- A round of the loop over TCP.
unfoldable pub on_frame : Receiver → InterleavedFrame → Receiver × List Bytes
on_frame r (rtp bytes) = on_parsed r (Rtp.parse bytes)
on_frame r (rtcp bytes) = (r, [])
on_frame r (unknown channel bytes) = (r, [])

unfoldable pub on_frames : Receiver → List InterleavedFrame → Receiver × List Bytes
on_frames r [] = (r, [])
on_frames r (frame ∷ frames) =
    let (r', out) = on_frame r frame in let (r'', more) = on_frames r' frames in (r'', out ++ more)

-- `IpAddr`, with the address as a number.
pub data IpAddr : Type 0 where
  v4 v6 : ℕ → IpAddr

unfoldable pub ip_same : IpAddr → IpAddr → Bool
ip_same (v4 a) (v4 b) = a == b
ip_same (v6 a) (v6 b) = a == b
ip_same _ _ = false

pub record SocketAddr : Type 0 where
  pub ip : IpAddr
  pub port : ℕ

pub record ExpectedRtpSource : Type 0 where
  pub ip : IpAddr
  pub port : Option ℕ

pub data SourceValidation : Type 0 where
  accept reject_ip reject_port : SourceValidation

pub record SourceValidator : Type 0 where
  pub expected : Option ExpectedRtpSource
  pub pinned_ip : Option IpAddr

unfoldable pub new_validator : Option ExpectedRtpSource → SourceValidator
new_validator expected = record { expected = expected; pinned_ip = none }

abbrev pub validate_port : Option ℕ → ℕ → SourceValidation
validate_port none port = accept
validate_port (some expected_port) port =
    if not (port == expected_port) then reject_port else accept

abbrev pub validate_pinned :
    SourceValidator → Option IpAddr → IpAddr → SourceValidator × SourceValidation
validate_pinned v none ip = (record v { pinned_ip = some ip }, accept)
validate_pinned v (some pinned_ip) ip =
    (v, if not (ip_same ip pinned_ip) then reject_ip else accept)

abbrev pub validate_by :
    SourceValidator → Option ExpectedRtpSource → SocketAddr → SourceValidator × SourceValidation
validate_by v none sender = validate_pinned v v.pinned_ip sender.ip
validate_by v (some expected) sender = (
  v,
  if not (ip_same sender.ip expected.ip)
      then reject_ip
      else validate_port expected.port sender.port,
)

unfoldable pub validate : SourceValidator → SocketAddr → SourceValidator × SourceValidation
validate v sender = validate_by v v.expected sender

-- The variables of the loop over UDP. Whether a packet was accepted is `first_valid_rtp`.
pub record UdpReceiver : Type 0 where
  pub receiver : Receiver
  pub source_validator : SourceValidator
  pub first_valid_rtp : Bool

abbrev pub video_nal : RtpPacket → Bytes → VideoNal
video_nal pkt out = record { annexb = out; rtp_ts = pkt.timestamp; marker = pkt.marker }

abbrev pub on_validated :
    UdpReceiver → RtpPacket → SourceValidator × SourceValidation → UdpReceiver × List VideoNal
on_validated u pkt (v, accept) =
    let (r, out) = on_packet u.receiver pkt in
    (record { receiver = r; source_validator = v; first_valid_rtp = true }, map (video_nal pkt) out)
on_validated u pkt (v, _) = (record u { source_validator = v }, [])

abbrev pub on_udp_parsed :
    UdpReceiver → SocketAddr → Outcome ParseError RtpPacket → UdpReceiver × List VideoNal
on_udp_parsed u src (ok pkt) = on_validated u pkt (validate u.source_validator src)
on_udp_parsed u src _ = (record u { receiver = restart none u.receiver }, [])

-- A round of the loop over UDP.
unfoldable pub on_datagram : UdpReceiver → SocketAddr → Bytes → UdpReceiver × List VideoNal
on_datagram u src bytes = on_udp_parsed u src (Rtp.parse bytes)

unfoldable pub on_datagrams : UdpReceiver → List (SocketAddr × Bytes) → UdpReceiver × List VideoNal
on_datagrams u [] = (u, [])
on_datagrams u ((src, bytes) ∷ rest) =
    let (u', out) = on_datagram u src bytes in
    let (u'', more) = on_datagrams u' rest in (u'', out ++ more)

unfoldable pub new_udp : Option ExpectedRtpSource → Option Bytes → Option Bytes → UdpReceiver
new_udp expected sps pps = record {
  receiver = new true sps pps;
  source_validator = new_validator expected;
  first_valid_rtp = false;
}
