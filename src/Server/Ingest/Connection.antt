-- ===== src/Server/Ingest/Connection.antt =====
-- `handle_conn` of sentinel_rtp_cam/src/bin/server_ingest.rs: a connection from its HELLO on, as the
-- sequence of its messages. `Json` is what is used of serde_json, and `base64` the decoding of a text,
-- with `none` for an error.
use sentinel_video_receiver.Prelude.{
  ℕ, Bool, not, Option, none, some, List, [], ◌∷◌, ◌==◌, if◌then◌else◌, is_empty, Outcome, ok, err,
  panic, ◌>>=◌, ◌>>◌, bail_if, Bytes, Text, text_same,
}
use sentinel_video_receiver.H264.Nal.{annexb_from_raw_nal}
use sentinel_video_receiver.Proto.{Msg, GapError, decode_gap}
use sentinel_video_receiver.Server.Stream.{StreamMsg, rtp, gap, motion}
use sentinel_video_receiver.Server.Ingest.{
  Shared, ensure_stream, nothing_between, send_or_recreate_stream_msg,
}

pub record HelloStream : Type 0 where
  pub stream_id : ℕ
  pub name : Text
  pub h264_sps_b64 : Option Text
  pub h264_pps_b64 : Option Text

pub record HelloPayload : Type 0 where
  pub agent_id : Text
  pub token : Text
  pub streams : List HelloStream

pub record MotionPayload : Type 0 where
  pub active : Bool
  pub rule : Option Text
  pub ts : Option Text

pub record Json : Type 1 where
  pub Value : Type 0
  pub hello : Bytes → Option HelloPayload
  pub from_slice : Bytes → Option Value
  -- `value.get("active").is_some_and(|field| field.is_boolean())`
  pub active_is_boolean : Value → Bool
  pub motion_payload : Value → Option MotionPayload

pub data SeedError : Type 0 where
  pps_missing sps_missing invalid_base64 empty : SeedError

-- `decode_opt`
abbrev decode_opt : Option Bytes → Outcome SeedError Bytes
decode_opt none = err invalid_base64
decode_opt (some raw) = if is_empty raw then err empty else ok raw

abbrev decode_seed :
    (Text → Option Bytes) → Option Text → Option Text → Outcome SeedError (Option (Bytes × Bytes))
decode_seed base64 none none = ok none
decode_seed base64 (some sps) none = err pps_missing
decode_seed base64 none (some pps) = err sps_missing
decode_seed base64 (some sps_b64) (some pps_b64) = do
  sps_raw ← decode_opt (base64 sps_b64)
  pps_raw ← decode_opt (base64 pps_b64)
  ok (some (annexb_from_raw_nal sps_raw, annexb_from_raw_nal pps_raw))

unfoldable pub decode_h264_sync_seed :
    (Text → Option Bytes) → HelloStream → Outcome SeedError (Option (Bytes × Bytes))
decode_h264_sync_seed base64 stream = decode_seed base64 stream.h264_sps_b64 stream.h264_pps_b64

-- An error is logged, and the stream starts without a seed.
abbrev pub seed_or_none : Outcome SeedError (Option (Bytes × Bytes)) → Option (Bytes × Bytes)
seed_or_none (ok seed) = seed
seed_or_none _ = none

unfoldable pub start_streams : (Text → Option Bytes) → List HelloStream → Shared → Shared
start_streams base64 [] w = w
start_streams base64 (s ∷ streams) w =
    let seed = seed_or_none (decode_h264_sync_seed base64 s) in
    start_streams base64 streams (ensure_stream s.stream_id seed w).0

-- "motion"
abbrev default_rule : Text
default_rule = b'm' ∷ b'o' ∷ b't' ∷ b'i' ∷ b'o' ∷ b'n' ∷ []

abbrev text_or : Text → Option Text → Text
text_or default none = default
text_or default (some text) = text

abbrev motion_of : Option MotionPayload → Option StreamMsg
motion_of none = none
motion_of (some parsed) =
    some (motion (text_or default_rule parsed.rule) parsed.active (text_or [] parsed.ts))

abbrev gap_of : Outcome GapError (ℕ × ℕ) → Option StreamMsg
gap_of (ok (last, new)) = some (gap last new)
gap_of _ = none

pub data HelloError : Type 0 where
  first_msg_not_hello invalid_hello invalid_token : HelloError

module _ (json : Json) where
  abbrev motion_value : Option json.Value → Option StreamMsg
  motion_value none = none
  motion_value (some value) =
      if not (json.active_is_boolean value) then none else motion_of (json.motion_payload value)

  unfoldable pub parse_motion_msg : Bytes → Option StreamMsg
  parse_motion_msg payload = motion_value (json.from_slice payload)

  -- The `match` on the type: RTP, GAP and MOTION.
  unfoldable pub stream_msg_of : Msg → Option StreamMsg
  stream_msg_of msg =
      if msg.msg_type == 2
      then some (rtp msg.payload)
      else if msg.msg_type == 3
      then gap_of (decode_gap msg.payload)
      else if msg.msg_type == 4
      then parse_motion_msg msg.payload
      else none

  abbrev pub forward : ℕ → Shared × ℕ → Option StreamMsg → Shared
  forward stream_id (w, tx) none = w
  forward stream_id (w, tx) (some msg) =
      send_or_recreate_stream_msg nothing_between stream_id tx msg w

  -- A round of the loop.
  unfoldable pub on_msg : Msg → Shared → Shared
  on_msg msg w = forward msg.stream_id (ensure_stream msg.stream_id none w) (stream_msg_of msg)

  unfoldable pub on_msgs : List Msg → Shared → Shared
  on_msgs [] w = w
  on_msgs (msg ∷ msgs) w = on_msgs msgs (on_msg msg w)

  abbrev accept_hello : Text → Option HelloPayload → Outcome HelloError HelloPayload
  accept_hello token none = err invalid_hello
  accept_hello token (some hello) =
      if text_same hello.token token then ok hello else err invalid_token

  -- The HELLO, up to its token.
  unfoldable pub check_hello : Text → Msg → Outcome HelloError HelloPayload
  check_hello token msg = do
    bail_if (not (msg.msg_type == 1)) first_msg_not_hello
    accept_hello token (json.hello msg.payload)

  abbrev pub serve :
      (Text → Option Bytes)
      → List Msg
      → Shared
      → Outcome HelloError HelloPayload
      → Shared × Option HelloError
  serve base64 msgs w (ok hello) = (on_msgs msgs (start_streams base64 hello.streams w), none)
  serve base64 msgs w (err e) = (w, some e)
  serve base64 msgs w panic = (w, none)

  -- A connection that nothing interrupts: the HELLO, and the messages until it ends.
  unfoldable pub handle_conn :
      (Text → Option Bytes) → Text → Msg → List Msg → Shared → Shared × Option HelloError
  handle_conn base64 token first msgs w = serve base64 msgs w (check_hello token first)
