-- ===== src/Prelude/Words.antt =====
-- Bytes as native numbers below 256, and machine words as bytes in big-endian order. A shift is a
-- division, a mask of low bits a remainder, as the tactics read them; `masks` compares these forms
-- with the bit operations of the source, byte by byte.
use Prim.Native.Nat.{ℕ, zero, suc, ◌+◌, ◌-◌, ◌*◌, ◌/◌, ◌%◌, ◌^◌, ◌≤◌, ◌<◌, bit_and}
use mathlib.Core.Path.{◌≡◌, refl, ap, ◌∙◌}
use mathlib.Core.Bool.{Bool, true, false, not, ◌&&◌}
use mathlib.Core.List.{List, [], ◌∷◌, ◌++◌}
use native.Mathlib.Omega.{arith}
use sentinel_video_receiver.Prelude.Tests.{ltb, leb, ◌==◌, if◌then◌else◌}
use sentinel_video_receiver.Prelude.Lists.{length, get_or, get_or-append, take, drop}
use sentinel_video_receiver.Prelude.Errors.{Outcome, ok, panic, ◌>>=◌}

abbrev pub Bytes : Type 0
Bytes = List ℕ

abbrev pub AllBytes : Bytes → Type 0
AllBytes [] = Unit
AllBytes (b ∷ bs) = (b < 256) × AllBytes bs

-- `b & (1 << k) != 0`
abbrev pub bit : ℕ → ℕ → Bool
bit b k = b / 2 ^ k % 2 == 1

-- `b & ((1 << k) - 1)`
abbrev pub low_bits : ℕ → ℕ → ℕ
low_bits b k = b % 2 ^ k

-- `b & !((1 << k) - 1)`
abbrev pub high_bits : ℕ → ℕ → ℕ
high_bits b k = b / 2 ^ k * 2 ^ k

-- `buf[i]`
unfoldable pub index : {E : Type 0} → Bytes → ℕ → Outcome E ℕ
index buf i = if ltb i (length buf) then ok (get_or buf i 0) else panic

-- `&buf[a..b]`
unfoldable pub slice : {E : Type 0} → Bytes → ℕ → ℕ → Outcome E Bytes
slice buf a b = if leb a b && leb b (length buf) then ok (take (b - a) (drop a buf)) else panic

-- `u16::from_be_bytes([buf[i], buf[i + 1]])`
unfoldable pub be16 : {E : Type 0} → Bytes → ℕ → Outcome E ℕ
unfolding index
be16 buf i = do a ← index buf i; b ← index buf (i + 1); ok (a * 256 + b)

-- `u32::from_be_bytes([buf[i], buf[i + 1], buf[i + 2], buf[i + 3]])`
unfoldable pub be32 : {E : Type 0} → Bytes → ℕ → Outcome E ℕ
unfolding index
be32 buf i = do
  a ← index buf i
  b ← index buf (i + 1)
  c ← index buf (i + 2)
  d ← index buf (i + 3)
  ok (a * 16777216 + b * 65536 + c * 256 + d)

-- `to_be_bytes` of a u16 and of a u32.
abbrev pub to_be16 : ℕ → Bytes
to_be16 n = (n / 256 % 256) ∷ (n % 256) ∷ []

abbrev pub to_be32 : ℕ → Bytes
to_be32 n = (n / 16777216 % 256) ∷ (n / 65536 % 256) ∷ (n / 256 % 256) ∷ (n % 256) ∷ []

-- The numbers that `be16` and `be32` read, with the bounds checks gone.
abbrev pub word16 : Bytes → ℕ → ℕ
word16 buf i = get_or buf i 0 * 256 + get_or buf (i + 1) 0

abbrev pub word32 : Bytes → ℕ → ℕ
word32 buf i =
    get_or buf i 0 * 16777216
    + get_or buf (i + 1) 0 * 65536
    + get_or buf (i + 2) 0 * 256
    + get_or buf (i + 3) 0

module _ {E : Type 0} (buf : Bytes) where
  pub index_lem : (i : ℕ) → i < length buf → index {E = E} buf i ≡ ok (get_or buf i 0)
  unfolding index
  index_lem i h = ground arith

  pub slice_lem :
      (a b : ℕ) → a ≤ b → b ≤ length buf → slice {E = E} buf a b ≡ ok (take (b - a) (drop a buf))
  unfolding slice
  slice_lem a b h k = ground arith

  pub be16_lem : (i : ℕ) → i + 1 < length buf → be16 {E = E} buf i ≡ ok (word16 buf i)
  unfolding be16
  be16_lem i h = ground arith

  pub be32_lem : (i : ℕ) → i + 3 < length buf → be32 {E = E} buf i ≡ ok (word32 buf i)
  unfolding be32
  be32_lem i h = ground arith

pub word16-to_be16 : (n : ℕ) (rest : Bytes) → n < 65536 → word16 (to_be16 n ++ rest) 0 ≡ n
word16-to_be16 n rest h = omega arith

pub word32-to_be32 : (n : ℕ) (rest : Bytes) → n < 4294967296 → word32 (to_be32 n ++ rest) 0 ≡ n
word32-to_be32 n rest h = omega arith

pub word16-append : (xs ys : Bytes) → word16 (xs ++ ys) (length xs) ≡ word16 ys 0
word16-append xs ys =
    let first : get_or (xs ++ ys) (length xs) 0 ≡ get_or ys 0 0 =
      ap (λ (k : ℕ). get_or (xs ++ ys) k 0) (omega arith) ∙ get_or-append xs ys 0 0 in
    omega (arith, first, get_or-append xs ys 1 0)

-- A test at each of the numbers below a bound, from the top down.
holds_below : (ℕ → Bool) → ℕ → Bool
holds_below test zero = true
holds_below test (suc k) = if test k then holds_below test k else false

same : Bool → Bool → Bool
same true b = b
same false b = not b

mask_agrees : ℕ → Bool
unfolding same
mask_agrees b =
    (bit_and b 0x0F == low_bits b 4)
    && (bit_and b 0x1F == low_bits b 5)
    && (bit_and b 0x7F == low_bits b 7)
    && (bit_and b 0xE0 == high_bits b 5)
    && same (not (bit_and b 0x80 == 0)) (bit b 7)
    && same (not (bit_and b 0x40 == 0)) (bit b 6)
    && same (not (bit_and b 0x20 == 0)) (bit b 5)
    && same (not (bit_and b 0x10 == 0)) (bit b 4)

masks : holds_below mask_agrees 256 ≡ true
unfolding holds_below mask_agrees
masks = refl
