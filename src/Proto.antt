-- ===== src/Proto.antt =====
-- sentinel_rtp_cam/src/proto.rs: the messages between agent and server, over the streams of Io.
pub mod RoundTrip
mod Tests
use sentinel_video_receiver.Prelude.{
  ℕ, ◌+◌, ◌*◌, Bool, true, false, not, List, [], ◌∷◌, ◌++◌, ltb, ◌==◌, if◌then◌else◌, length,
  is_empty, Bytes, be16, be32, to_be16, to_be32, Outcome, ok, err, panic, ◌>>=◌, ◌>>◌, bail_if,
  map_err,
}
use sentinel_video_receiver.Io.{Reader, Writer}

abbrev pub magic : ℕ
magic = 0x534E5450

abbrev pub version : ℕ
version = 1

abbrev pub max_len : ℕ
max_len = 256 * 1024

pub record Msg : Type 0 where
  pub msg_type : ℕ  -- u16
  pub stream_id : ℕ  -- u32
  pub payload : Bytes

pub data MsgError (E : Type 0) : Type 0 where
  io : E → MsgError E
  bad_magic bad_version payload_too_large : ℕ → MsgError E

unfoldable pub header_bytes : Msg → Bytes
header_bytes msg =
    to_be32 magic
    ++ (to_be16 version
        ++ (to_be16 msg.msg_type ++ (to_be32 msg.stream_id ++ to_be32 (length msg.payload))))

module _ (w : Writer) where
  unfoldable pub write_msg : w.State → Msg → Outcome (MsgError w.Error) w.State
  unfolding header_bytes
  write_msg s msg = do
    bail_if (ltb max_len (length msg.payload)) (payload_too_large (length msg.payload))
    s ← map_err io (w.write_all s (header_bytes msg))
    if not (is_empty msg.payload) then map_err io (w.write_all s msg.payload) else ok s

module _ (r : Reader) where
  unfoldable pub read_msg : r.State → Outcome (MsgError r.Error) (Msg × r.State)
  read_msg s = do
    (header, s) ← map_err io (r.read_exact s 16)
    found ← be32 header 0
    bail_if (not (found == magic)) (bad_magic found)
    found ← be16 header 4
    bail_if (not (found == version)) (bad_version found)
    msg_type ← be16 header 6
    stream_id ← be32 header 8
    len ← be32 header 12
    bail_if (ltb max_len len) (payload_too_large len)
    (payload, s) ← if ltb 0 len then map_err io (r.read_exact s len) else ok ([], s)
    ok (record { msg_type = msg_type; stream_id = stream_id; payload = payload }, s)

unfoldable pub encode_gap : ℕ → ℕ → Bytes
encode_gap last_seq new_seq = to_be16 last_seq ++ to_be16 new_seq

pub data GapError : Type 0 where
  gap_payload_len : GapError

unfoldable pub decode_gap : Bytes → Outcome GapError (ℕ × ℕ)
decode_gap buf = do
  bail_if (not (length buf == 4)) gap_payload_len
  last ← be16 buf 0
  new ← be16 buf 2
  ok (last, new)
