-- ===== src/Rtp/Wire.antt =====
-- The packet layout of RFC 3550, section 5.1, as a writer. It is independent of the parser: header,
-- CSRC list, header extension, payload and padding are put one behind the other.
use sentinel_video_receiver.Prelude.{
  ℕ, zero, suc, ◌+◌, ◌*◌, ◌<◌, ◌≡◌, refl, Bool, true, false, Option, none, some, List, [], ◌∷◌,
  ◌++◌, arith, length, length-append, length-replicate, replicate, Bytes, to_be16, to_be32, ltb,
}

pub record Extension : Type 0 where
  pub profile : ℕ
  pub words : List ℕ

pub record Wire : Type 0 where
  pub marker : Bool
  pub payload_type : ℕ
  pub sequence_number : ℕ
  pub timestamp : ℕ
  pub ssrc : ℕ
  pub csrcs : List ℕ
  pub extension : Option Extension
  pub payload : Bytes
  pub pad_len : ℕ  -- 0 is no padding

-- The fields fit their places in the header.
pub record Fits (w : Wire) : Type 0 where
  pub payload_type_fits : w.payload_type < 128
  pub sequence_number_fits : w.sequence_number < 65536
  pub timestamp_fits : w.timestamp < 4294967296
  pub ssrc_fits : w.ssrc < 4294967296
  pub csrcs_fit : length w.csrcs < 16
  pub pad_len_fits : w.pad_len < 256

abbrev pub flag : ℕ → Bool → ℕ
flag n true = n
flag n false = 0

abbrev pub is_some {ℓ} : {A : Type ℓ} → Option A → Bool
is_some none = false
is_some (some a) = true

abbrev pub words_bytes : List ℕ → Bytes
words_bytes [] = []
words_bytes (n ∷ ns) = to_be32 n ++ words_bytes ns

abbrev pub extension_bytes : Option Extension → Bytes
extension_bytes none = []
extension_bytes (some e) = to_be16 e.profile ++ (to_be16 (length e.words) ++ words_bytes e.words)

abbrev pub ExtensionFits : Option Extension → Type 0
ExtensionFits none = Unit
ExtensionFits (some e) = length e.words < 65536

-- Zeros, and the count of the padding in the last byte.
abbrev pub padding_bytes : ℕ → Bytes
padding_bytes zero = []
padding_bytes (suc n) = replicate n 0 ++ (suc n ∷ [])

abbrev pub first_byte : Wire → ℕ
first_byte w = 128 + flag 32 (ltb 0 w.pad_len) + flag 16 (is_some w.extension) + length w.csrcs

abbrev pub fixed_header : Wire → Bytes
fixed_header w =
    first_byte w
    ∷ (flag 128 w.marker + w.payload_type)
    ∷ (to_be16 w.sequence_number ++ (to_be32 w.timestamp ++ to_be32 w.ssrc))

unfoldable pub encode : Wire → Bytes
encode w =
    (fixed_header w ++ words_bytes w.csrcs)
    ++ (extension_bytes w.extension ++ (w.payload ++ padding_bytes w.pad_len))

pub length-words_bytes : (ns : List ℕ) → length (words_bytes ns) ≡ length ns * 4
length-words_bytes [] = refl
length-words_bytes (n ∷ ns) = omega (arith, length-words_bytes ns)

pub length-padding_bytes : (n : ℕ) → length (padding_bytes n) ≡ n
length-padding_bytes zero = refl
length-padding_bytes (suc n) =
    omega (arith, length-append (replicate n 0) (suc n ∷ []), length-replicate {A = ℕ} n 0)
