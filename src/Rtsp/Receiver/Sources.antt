-- ===== src/Rtsp/Receiver/Sources.antt =====
-- Which datagrams the receiver of sentinel_rtp_cam/src/rtsp/rtsp_receiver_udp.rs uses.
use sentinel_video_receiver.Prelude.{
  ℕ, ◌≡◌, refl, ap, arith, Bool, true, ◌&&◌, Option, none, some, List, [], ◌∷◌, ◌++◌, ◌==◌, map,
  if◌then◌else◌, Outcome, ok, err, panic, Bytes,
}
use sentinel_video_receiver.Rtp
use sentinel_video_receiver.Rtp.{RtpPacket, ParseError}
use sentinel_video_receiver.H264.Nal.{VideoNal}
use sentinel_video_receiver.Rtsp.{InterleavedFrame, rtp}
use sentinel_video_receiver.Rtsp.Receiver.{
  on_packet, on_parsed, on_frame, on_frames, IpAddr, ip_same, SocketAddr, ExpectedRtpSource,
  validate, new, new_udp, new_validator, UdpReceiver, video_nal, on_validated, on_udp_parsed,
  on_datagram, on_datagrams,
}

-- An address from which packets are wanted: that of the session, or the one that was pinned, or any
-- while none is.
abbrev port_wanted : Option ℕ → ℕ → Bool
port_wanted none port = true
port_wanted (some p) port = port == p

abbrev wanted : Option ExpectedRtpSource → Option IpAddr → SocketAddr → Bool
wanted (some e) pinned sender = ip_same sender.ip e.ip && port_wanted e.port sender.port
wanted none (some ip) sender = ip_same sender.ip ip
wanted none none sender = true

abbrev pinned_by : Option ExpectedRtpSource → Option IpAddr → SocketAddr → Option IpAddr
pinned_by none none sender = some sender.ip
pinned_by _ pinned sender = pinned

-- The datagrams that are used: packets from a wanted address, and whatever is no packet.
abbrev used_parsed :
    Option ExpectedRtpSource → Option IpAddr → SocketAddr → Outcome ParseError RtpPacket → Bool
used_parsed e pinned sender (ok pkt) = wanted e pinned sender
used_parsed e pinned sender _ = true

abbrev pinned_parsed :
    Option ExpectedRtpSource
    → Option IpAddr
    → SocketAddr
    → Outcome ParseError RtpPacket
    → Option IpAddr
pinned_parsed e pinned sender (ok pkt) = pinned_by e pinned sender
pinned_parsed e pinned sender _ = pinned

abbrev pub used :
    Option ExpectedRtpSource → Option IpAddr → List (SocketAddr × Bytes) → List InterleavedFrame
used e pinned [] = []
used e pinned ((sender, bytes) ∷ rest) =
    let parsed = Rtp.parse bytes in
    let later = used e (pinned_parsed e pinned sender parsed) rest in
    if used_parsed e pinned sender parsed then rtp bytes ∷ later else later

abbrev pub nals_of : List VideoNal → List Bytes
nals_of [] = []
nals_of (v ∷ vs) = v.annexb ∷ nals_of vs

nals_of-append : (xs ys : List VideoNal) → nals_of (xs ++ ys) ≡ nals_of xs ++ nals_of ys
nals_of-append [] ys = refl
nals_of-append (x ∷ xs) ys = ap (◌∷◌ x.annexb) (nals_of-append xs ys)

nals_of-map : (pkt : RtpPacket) (out : List Bytes) → nals_of (map (video_nal pkt) out) ≡ out
nals_of-map pkt [] = refl
nals_of-map pkt (nal ∷ nals) = ap (◌∷◌ nal) (nals_of-map pkt nals)

-- What one datagram comes to.
record Same (u : UdpReceiver) (parsed : Outcome ParseError RtpPacket) (sender : SocketAddr)
    (result : UdpReceiver × List VideoNal) : Type 0 where
  expected_lem : result.0.source_validator.expected ≡ u.source_validator.expected
  pinned_lem :
      result.0.source_validator.pinned_ip
      ≡ pinned_parsed u.source_validator.expected u.source_validator.pinned_ip sender parsed
  receiver_lem : (result.0.receiver, nals_of result.1) ≡ (
      if used_parsed u.source_validator.expected u.source_validator.pinned_ip sender parsed
      then on_parsed u.receiver parsed
      else (u.receiver, []))

on_packet-Same :
    (u : UdpReceiver) (pkt : RtpPacket) (sender : SocketAddr) (e : Option ExpectedRtpSource)
    (pinned : Option IpAddr)
    → u.source_validator.expected ≡ e
    → u.source_validator.pinned_ip ≡ pinned
    → Same u (ok pkt) sender (on_validated u pkt (validate u.source_validator sender))
unfolding validate
on_packet-Same u pkt sender (some e) pinned h k =
    ground (arith, h, k, nals_of-map pkt (on_packet u.receiver pkt).1)
on_packet-Same u pkt sender none none h k =
    ground (arith, h, k, nals_of-map pkt (on_packet u.receiver pkt).1)
on_packet-Same u pkt sender none (some ip) h k =
    ground (arith, h, k, nals_of-map pkt (on_packet u.receiver pkt).1)

on_parsed-Same :
    (u : UdpReceiver) (parsed : Outcome ParseError RtpPacket) (sender : SocketAddr)
    → Same u parsed sender (on_udp_parsed u sender parsed)
on_parsed-Same u (ok pkt) sender =
    on_packet-Same u pkt sender u.source_validator.expected u.source_validator.pinned_ip refl refl
on_parsed-Same u (err e) sender = record {
  expected_lem = refl;
  pinned_lem = refl;
  receiver_lem = refl;
}
on_parsed-Same u panic sender = record {
  expected_lem = refl;
  pinned_lem = refl;
  receiver_lem = refl;
}

on_datagrams_lem :
    (e : Option ExpectedRtpSource) (pinned : Option IpAddr) (u : UdpReceiver)
    (datagrams : List (SocketAddr × Bytes))
    → u.source_validator.expected ≡ e
    → u.source_validator.pinned_ip ≡ pinned
    → let (u', out) = on_datagrams u datagrams in
      (u'.receiver, nals_of out) ≡ on_frames u.receiver (used e pinned datagrams)
unfolding on_datagrams on_datagram on_frames on_frame
on_datagrams_lem e pinned u [] h k = refl
on_datagrams_lem e pinned u ((sender, bytes) ∷ rest) h k =
    let (u', out) = on_datagram u sender bytes in
    let (u'', more) = on_datagrams u' rest in
    let same = on_parsed-Same u (Rtp.parse bytes) sender in
    ground (
      arith,
      h,
      k,
      same,
      on_datagrams_lem e (pinned_parsed e pinned sender (Rtp.parse bytes)) u' rest,
      nals_of-append out more,
    )

-- From the start of a session on, the receiver over UDP does and sends for any datagrams what the
-- receiver over TCP does for those that are used: the packets from the address of the session, with its
-- port if one was negotiated, or from the first packet's address if the session's is not known; and
-- whatever is no packet, from any address.
pub on_datagrams-used :
    (expected : Option ExpectedRtpSource) (sps pps : Option Bytes)
    (datagrams : List (SocketAddr × Bytes))
    → let (u, out) = on_datagrams (new_udp expected sps pps) datagrams in
      (u.receiver, nals_of out) ≡ on_frames (new true sps pps) (used expected none datagrams)
unfolding new_udp new_validator
on_datagrams-used expected sps pps datagrams =
    on_datagrams_lem expected none (new_udp expected sps pps) datagrams refl refl
