-- ===== src/Live/Ts.antt =====
-- The MPEG-TS writer of sentinel_rtp_cam/src/live/v2.rs: `packetize_ts`, the PES header with its time
-- stamp, and the program tables.
pub mod Packets
pub mod Pts
use Prim.Native.Nat.{bit_xor}
use sentinel_video_receiver.Prelude.{
  ℕ, zero, suc, ◌+◌, ◌-◌, ◌*◌, ◌/◌, ◌%◌, ◌^◌, min, ◌≤◌, ◌<◌, ◌≡◌, refl, ap, arith, Bool, true,
  false, not, ◌&&◌, List, [], ◌∷◌, ◌++◌, ltb, leb, ◌==◌, if◌then◌else◌, length, take, drop,
  replicate, Bytes, to_be16, to_be32,
}

abbrev pub pat_pid : ℕ
pat_pid = 0

abbrev pub pmt_pid : ℕ
pmt_pid = 4096

abbrev pub video_pid : ℕ
video_pid = 256

abbrev pub ts_packet_size : ℕ
ts_packet_size = 188

abbrev pub h264_stream_type : ℕ
h264_stream_type = 27

abbrev pub h264_stream_id : ℕ
h264_stream_id = 224

-- `(pid >> 8) as u8 & 0x1F`
abbrev pub pid_high : ℕ → ℕ
pid_high pid = pid / 256 % 256 % 32

-- The adaptation field before `n` bytes of payload, when there is one: its length, and if that is not
-- zero a byte of flags and stuffing.
unfoldable pub adaptation_field : ℕ → Bytes
adaptation_field n =
    let adaptation_field_length = 183 - n in
    if ltb 0 adaptation_field_length
    then adaptation_field_length ∷ (0 ∷ replicate (adaptation_field_length - 1) 255)
    else adaptation_field_length ∷ []

-- One round of the `while`: the packet with the bytes that it takes, which fill it.
unfoldable pub ts_packet : ℕ → ℕ → Bool → Bytes → Bytes
ts_packet pid continuity_counter start chunk =
    let use_adaptation = ltb (length chunk) 184 in
    let adaptation_control = if use_adaptation then 3 else 1 in
    71
    ∷ ((if start then 64 else 0) + pid_high pid)
    ∷ (pid % 256)
    ∷ (adaptation_control * 16 + continuity_counter % 16)
    ∷ ((if use_adaptation then adaptation_field (length chunk) else []) ++ chunk)

-- `continuity_counter.wrapping_add(1) & 0x0F`
abbrev pub next_counter : ℕ → ℕ
next_counter continuity_counter = (continuity_counter + 1) % 256 % 16

-- The `while`, on the bytes from `offset` on; the fuel is a number of rounds.
unfoldable pub packetize_loop : ℕ → ℕ → ℕ → Bool → Bytes → List Bytes × ℕ
packetize_loop zero pid continuity_counter start payload = ([], continuity_counter)
packetize_loop (suc fuel) pid continuity_counter start payload =
    let n = min (length payload) 184 in
    let (packets, counter) =
      packetize_loop fuel pid (next_counter continuity_counter) false (drop n payload) in
    if ltb 0 (length payload)
    then (ts_packet pid continuity_counter start (take n payload) ∷ packets, counter)
    else ([], continuity_counter)

-- The packets, and the continuity counter after them; the code hands out the packets in one vector.
unfoldable pub packetize_ts : ℕ → Bytes → ℕ → Bool → List Bytes × ℕ
packetize_ts pid payload continuity_counter payload_unit_start =
    packetize_loop (length payload) pid continuity_counter payload_unit_start payload

-- The shifts and masks of a u64 are divisions and remainders.
unfoldable pub encode_pts : ℕ → Bytes
encode_pts pts_90k =
    let pts = pts_90k % 8589934592 in
    (32 + pts / 1073741824 % 8 * 2 + 1)
    ∷ (pts / 4194304 % 256)
    ∷ (pts / 32768 % 128 * 2 + 1)
    ∷ (pts / 128 % 256)
    ∷ (pts % 128 * 2 + 1)
    ∷ []

unfoldable pub build_pes_video : ℕ → Bytes → Bytes
build_pes_video pts_90k payload =
    0 ∷ 0 ∷ 1 ∷ h264_stream_id ∷ 0 ∷ 0 ∷ 128 ∷ 128 ∷ 5 ∷ (encode_pts pts_90k ++ payload)

-- A step of the inner loop, in u32.
abbrev crc_bit : ℕ → ℕ
crc_bit crc =
    let shifted = crc * 2 % 4294967296 in
    if leb 2147483648 crc then bit_xor shifted 0x04C11DB7 else shifted

unfoldable pub crc_byte : ℕ → ℕ → ℕ
crc_byte crc byte = crc_bit (
    crc_bit
      (crc_bit (crc_bit (crc_bit (crc_bit (crc_bit (crc_bit (bit_xor crc (byte * 16777216)))))))))

unfoldable pub crc_from : ℕ → Bytes → ℕ
crc_from crc [] = crc
crc_from crc (byte ∷ bytes) = crc_from (crc_byte crc byte) bytes

unfoldable pub mpeg_crc32 : Bytes → ℕ
mpeg_crc32 = crc_from 0xFFFFFFFF

abbrev pub pat_section : Bytes
pat_section =
    0 ∷ 176 ∷ 13 ∷ 0 ∷ 1 ∷ 193 ∷ 0 ∷ 0 ∷ 0 ∷ 1 ∷ (224 + pid_high pmt_pid) ∷ (pmt_pid % 256) ∷ []

abbrev pub pmt_section : Bytes
pmt_section =
    2
    ∷ 176
    ∷ 18
    ∷ 0
    ∷ 1
    ∷ 193
    ∷ 0
    ∷ 0
    ∷ (224 + pid_high video_pid)
    ∷ (video_pid % 256)
    ∷ 240
    ∷ 0
    ∷ h264_stream_type
    ∷ (224 + pid_high video_pid)
    ∷ (video_pid % 256)
    ∷ 240
    ∷ 0
    ∷ []

abbrev with_crc : Bytes → Bytes
with_crc section = 0 ∷ (section ++ to_be32 (mpeg_crc32 section))

unfoldable pub build_pat_packet : ℕ → List Bytes × ℕ
build_pat_packet continuity_counter =
    packetize_ts pat_pid (with_crc pat_section) continuity_counter true

unfoldable pub build_pmt_packet : ℕ → List Bytes × ℕ
build_pmt_packet continuity_counter =
    packetize_ts pmt_pid (with_crc pmt_section) continuity_counter true
