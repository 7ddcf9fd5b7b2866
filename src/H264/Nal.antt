-- ===== src/H264/Nal.antt =====
-- sentinel_rtp_cam/src/core/video.rs: NAL units behind the Annex-B start code.
use sentinel_video_receiver.Prelude.{
  ℕ, ◌<◌, ◌≡◌, Bool, ◌&&◌, Option, none, some, [], ◌∷◌, ◌++◌, arith, ltb, ◌==◌, if◌then◌else◌,
  length, get_or, Bytes, low_bits,
}

abbrev pub annexb_start : Bytes
annexb_start = 0 ∷ 0 ∷ 0 ∷ 1 ∷ []

pub record VideoNal : Type 0 where
  pub annexb : Bytes
  pub rtp_ts : ℕ  -- u32
  pub marker : Bool

unfoldable pub annexb_from_raw_nal : Bytes → Bytes
annexb_from_raw_nal raw = annexb_start ++ raw

-- `&nal[0..4] == [0, 0, 0, 1]`, of a NAL of five bytes or more.
abbrev starts_annexb : Bytes → Bool
starts_annexb nal =
    (get_or nal 0 0 == 0) && (get_or nal 1 0 == 0) && (get_or nal 2 0 == 0) && (get_or nal 3 0 == 1)

unfoldable pub nal_type_from_annexb : Bytes → Option ℕ
nal_type_from_annexb nal =
    if ltb (length nal) 5
    then none
    else if starts_annexb nal
    then some (low_bits (get_or nal 4 0) 5)
    else none

-- A NAL with its start code put in front has the type that its header byte says, and an empty one
-- has none.
pub nal_type-annexb :
    (header : ℕ) (body : Bytes)
    → (nal_type_from_annexb (annexb_from_raw_nal (header ∷ body)) ≡ some (low_bits header 5))
      × (nal_type_from_annexb (annexb_from_raw_nal []) ≡ none)
unfolding nal_type_from_annexb annexb_from_raw_nal
nal_type-annexb header body = ground arith

pub nal_type-lt : (nal : Bytes) {t : ℕ} → nal_type_from_annexb nal ≡ some t → t < 32
unfolding nal_type_from_annexb
nal_type-lt nal h = ground arith
