-- ===== src/Uplink.antt =====
-- The records of the TLS connection between agent and server, in sentinel_rtp_cam/src/agent_uplink.rs.
pub mod Records
mod Tests
use sentinel_video_receiver.Prelude.{
  ℕ, ◌+◌, ◌*◌, Bool, true, false, not, List, [], ◌∷◌, ◌++◌, ltb, if◌then◌else◌, length, drop,
  is_empty, Bytes, index, be32, to_be16, to_be32, Outcome, ok, err, panic, ◌>>=◌, ◌>>◌, bail_if,
  map_err,
}
use sentinel_video_receiver.Io.{Reader, Writer}

abbrev pub max_payload : ℕ
max_payload = 2 * 1024 * 1024

abbrev pub record_rtp : ℕ
record_rtp = 2

abbrev pub record_gap : ℕ
record_gap = 8

pub record Record : Type 0 where
  pub record_type : ℕ  -- u8
  pub flags : ℕ  -- u8
  pub payload : Bytes

pub data RecordError (E : Type 0) : Type 0 where
  io : E → RecordError E
  payload_too_large : ℕ → RecordError E

abbrev pub header_bytes : Record → Bytes
header_bytes rec = rec.record_type ∷ rec.flags ∷ to_be32 (length rec.payload)

module _ (r : Reader) where
  unfoldable pub read_record : r.State → Outcome (RecordError r.Error) (Record × r.State)
  read_record s = do
    (header, s) ← map_err io (r.read_exact s 6)
    record_type ← index header 0
    flags ← index header 1
    len ← be32 header 2
    bail_if (ltb max_payload len) (payload_too_large len)
    (payload, s) ← if ltb 0 len then map_err io (r.read_exact s len) else ok ([], s)
    ok (record { record_type = record_type; flags = flags; payload = payload }, s)

module _ (w : Writer) where
  unfoldable pub write_record : w.State → Record → Outcome (RecordError w.Error) w.State
  write_record s rec = do
    bail_if (ltb max_payload (length rec.payload)) (payload_too_large (length rec.payload))
    s ← map_err io (w.write_all s (header_bytes rec))
    s ← if not (is_empty rec.payload) then map_err io (w.write_all s rec.payload) else ok s
    map_err io (w.flush s)

unfoldable pub encode_rtp_tls : ℕ → Bytes → Bytes
encode_rtp_tls stream_id rtp_bytes = to_be32 stream_id ++ rtp_bytes

unfoldable pub encode_gap_tls : ℕ → ℕ → ℕ → Bytes
encode_gap_tls stream_id last_seq new_seq =
    to_be32 stream_id ++ (to_be16 last_seq ++ to_be16 new_seq)
