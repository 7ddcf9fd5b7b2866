-- ===== src/Live/Ts/Pts.antt =====
-- The time stamp of a PES header, read back.
use sentinel_video_receiver.Prelude.{ℕ, ◌+◌, ◌*◌, ◌/◌, ◌%◌, ◌<◌, ◌≡◌, arith, get_or, drop, Bytes}
use sentinel_video_receiver.Live.Ts.{encode_pts, build_pes_video}

-- The 33 bits between the markers of ISO/IEC 13818-1, 2.4.3.7.
abbrev pub pts_at : Bytes → ℕ → ℕ
pts_at bytes i =
    get_or bytes i 0 / 2 % 8 * 1073741824
    + get_or bytes (i + 1) 0 * 4194304
    + get_or bytes (i + 2) 0 / 2 * 32768
    + get_or bytes (i + 3) 0 * 128
    + get_or bytes (i + 4) 0 / 2

-- What a PES packet is read as: its time stamp and the bytes behind the header.
abbrev pub read_pes : Bytes → ℕ × Bytes
read_pes pes = (pts_at pes 9, drop (9 + get_or pes 8 0) pes)

bits_lem :
    (p : ℕ)
    → p < 8589934592
    → (32 + p / 1073741824 % 8 * 2 + 1) / 2 % 8 * 1073741824
        + p / 4194304 % 256 * 4194304
        + (p / 32768 % 128 * 2 + 1) / 2 * 32768
        + p / 128 % 256 * 128
        + (p % 128 * 2 + 1) / 2
      ≡ p
bits_lem p h = omega arith

-- A PES packet is read back as its time stamp modulo 2 ^ 33 and its payload.
pub read_pes-build_pes_video :
    (pts : ℕ) (payload : Bytes)
    → read_pes (build_pes_video pts payload) ≡ (pts % 8589934592, payload)
unfolding build_pes_video encode_pts
read_pes-build_pes_video pts payload = ground (arith, bits_lem (pts % 8589934592) (omega arith))
