-- ===== src/Rtsp/Tests.antt =====
-- A frame that is split between the client and its stream.
use sentinel_video_receiver.Prelude.{
  ℕ, ◌≡◌, refl, arith, none, some, List, [], ◌∷◌, ◌++◌, take, drop, true, ok, Bytes, Text,
}
use sentinel_video_receiver.Io.{list_reader}
use sentinel_video_receiver.Rtp
use sentinel_video_receiver.H264.SyncGate.Start.{Start}
use sentinel_video_receiver.Rtsp.{
  RtspClient, InterleavedFrame, frame_of, rtp, read_interleaved_frame,
}
use sentinel_video_receiver.Texts.{
  is_whitespace, trim_start, trim_end, trim, split_once, split, words_from, split_whitespace,
  digits_from, parse_unsigned, lower, same_ignoring_case, split_crlf,
}
use sentinel_video_receiver.Rtsp.Response.{
  content_length, header_get, split_head, not_empty, parse_headers, parse_head, content_len_of,
  read_response,
}
use sentinel_video_receiver.Rtsp.Response.Chunks.{
  arriving, read_response-arriving, read_response_extra,
}
use sentinel_video_receiver.Rtsp.Receiver.{
  new, on_frames, v4, SocketAddr, ExpectedRtpSource, on_datagrams, new_udp,
}
use sentinel_video_receiver.Rtsp.Receiver.Sources.{used, nals_of, on_datagrams-used}
use sentinel_video_receiver.Rtsp.Client.{client_pending, client_reader}
use sentinel_video_receiver.Rtsp.Frames.{read_interleaved_frame-frame_bytes}

abbrev client : RtspClient list_reader
client = record { leftover = 36 ∷ 0 ∷ 0 ∷ []; stream = 3 ∷ 1 ∷ 2 ∷ 3 ∷ 9 ∷ [] }

read_interleaved_frame-frame_bytes_example :
    (c : RtspClient list_reader) × (read_interleaved_frame (client_reader list_reader) client 0 1
      ≡ ok (rtp (1 ∷ 2 ∷ 3 ∷ []), c))
    × (client_pending list_reader c ≡ 9 ∷ [])
unfolding frame_of
read_interleaved_frame-frame_bytes_example =
    read_interleaved_frame-frame_bytes list_reader client 0 1 0 (1 ∷ 2 ∷ 3 ∷ []) (9 ∷ [])
      (omega arith) refl

-- A packet of version 2 with a payload of one NAL, of a type.
abbrev packet : ℕ → ℕ → Bytes
packet seq header = 128 ∷ 96 ∷ 0 ∷ seq ∷ 0 ∷ 0 ∷ 0 ∷ 0 ∷ 0 ∷ 0 ∷ 0 ∷ 0 ∷ header ∷ 1 ∷ []

abbrev history : List InterleavedFrame
history = rtp (packet 1 103) ∷ rtp (packet 2 104) ∷ rtp (packet 3 101) ∷ []

abbrev later : List InterleavedFrame
later = rtp (packet 4 65) ∷ rtp (packet 5 101) ∷ []

abbrev camera : SocketAddr
camera = record { ip = v4 1; port = 6000 }

abbrev stranger : SocketAddr
stranger = record { ip = v4 2; port = 6000 }

abbrev datagrams : List (SocketAddr × Bytes)
datagrams = (camera, packet 1 103) ∷ (stranger, packet 9 65) ∷ (camera, packet 2 104) ∷ []

abbrev session : ExpectedRtpSource
session = record { ip = v4 1; port = some 6000 }

on_datagrams-used_example :
    let (u, out) = on_datagrams (new_udp (some session) none none) datagrams in
    (u.receiver, nals_of out) ≡ on_frames (new true none none) (used (some session) none datagrams)
on_datagrams-used_example = on_datagrams-used (some session) none none datagrams

-- "RTSP/1.0 200 OK", "Content-Length: 2" and a body of two bytes.
abbrev response_head : Bytes
response_head =
    (b'R' ∷ b'T' ∷ b'S' ∷ b'P' ∷ b'/' ∷ b'1' ∷ b'.' ∷ b'0' ∷ 32 ∷ b'2' ∷ b'0' ∷ b'0' ∷ 32 ∷ b'O'
      ∷ b'K' ∷ 13 ∷ 10 ∷ [])
    ++ (content_length ++ (b':' ∷ 32 ∷ b'2' ∷ 13 ∷ 10 ∷ 13 ∷ 10 ∷ []))

abbrev response_headers : List (Text × Text)
response_headers = (content_length, b'2' ∷ []) ∷ []

abbrev response_body : Bytes
response_body = b'h' ∷ b'i' ∷ []

abbrev utf8 : Bytes → Text
utf8 bytes = bytes

abbrev chunks : List Bytes
chunks = take 20 response_head ∷ drop 20 response_head ∷ (b'h' ∷ []) ∷ (b'i' ∷ []) ∷ []

program : Unit {0}
unfolding trim_start trim_end trim split_once split words_from split_whitespace digits_from
    parse_unsigned lower same_ignoring_case split_crlf is_whitespace header_get split_head not_empty
    parse_headers parse_head content_len_of
program = tt

read_response-arriving_example :
    read_response utf8 (arriving chunks (some (9 ∷ []) ∷ []))
    ≡ ok (
      record { status = 200; headers = response_headers; body = response_body },
      some (9 ∷ []) ∷ [],
    )
unfolding program
read_response-arriving_example =
    read_response-arriving utf8 chunks (some (9 ∷ []) ∷ []) response_head response_body 200
      response_headers (refl, (refl, (refl, (refl, tt)))) refl refl (omega arith) refl refl

read_response_extra_example :
    read_response utf8 (some (response_head ++ (response_body ++ (36 ∷ 0 ∷ []))) ∷ [])
    ≡ ok (record { status = 200; headers = response_headers; body = response_body }, [])
unfolding program
read_response_extra_example =
    read_response_extra utf8 (36 ∷ 0 ∷ []) [] response_head response_body 200 response_headers refl
      refl refl
