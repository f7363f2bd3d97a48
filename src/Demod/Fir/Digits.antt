-- ===== src/Demod/Fir/Digits.antt =====
-- The digits of packed FIR coefficients.
use rtl_sdr_blog.Common.{
  Bool, List, [], arith, bit_and, bit_or, if◌then◌else◌, ltb, refl, true, ℕ, ◌%◌, ◌&&◌, ◌*◌, ◌+◌,
  ◌-◌, ◌/◌, ◌<◌, ◌∷◌, ◌≡◌,
}
use rtl_sdr_blog.Common.Int.{negsuc, pos, ℤ}
use rtl_sdr_blog.Common.Word.{u8}
use rtl_sdr_blog.Common.Bits.{bit_and_nibble, bit_or_nibbles}
use rtl_sdr_blog.Demod.Fir.{in_range, pack_pair, sar, to_u8}

-- A number of `2 * half` values as a signed one.
abbrev pub signed : ℕ → ℕ → ℤ
signed half n = if ltb n half then pos n else negsuc (2 * half - 1 - n)

abbrev pub unpack8 : List ℕ → List ℤ
unpack8 [] = []
unpack8 (b ∷ bytes) = signed 128 b ∷ unpack8 bytes

-- The three bytes as two numbers of 12 bits, the high digits first.
abbrev pub unpack12 : List ℕ → List ℤ
unpack12 (b0 ∷ b1 ∷ b2 ∷ bytes) =
    signed 2048 (b0 * 16 + b1 / 16) ∷ signed 2048 (b1 % 16 * 256 + b2) ∷ unpack12 bytes
unpack12 bytes = []

pub signed-to_u8 : (v : ℤ) → in_range 128 v ≡ true → signed 128 (to_u8 v) ≡ v
unfolding in_range to_u8
signed-to_u8 (pos n) h = ground arith
signed-to_u8 (negsuc n) h = ground arith

to_u8_bound : (v : ℤ) → to_u8 v < 256
unfolding to_u8
to_u8_bound (pos n) = omega arith
to_u8_bound (negsuc n) = omega arith

-- The byte in the middle: the low digit of the first value and the high digit of the second.
middle :
    (v w : ℤ)
    → u8 (bit_or (u8 (16 * to_u8 v)) (bit_and (to_u8 (sar w 8)) 0x0f))
      ≡ 16 * (to_u8 v % 16) + to_u8 (sar w 8) % 16
middle v w =
    rw
      (
        bit_and_nibble (to_u8 (sar w 8)) (to_u8_bound (sar w 8)),
        high (to_u8 v),
        bit_or_nibbles (to_u8 v % 16) (to_u8 (sar w 8) % 16) (omega arith) (omega arith),
      )
      (omega arith)
  where
    high : (n : ℕ) → u8 (16 * n) ≡ 16 * (n % 16)
    high n = omega arith

first_value :
    (v : ℤ) (m : ℕ)
    → in_range 2048 v ≡ true
    → m < 16
    → signed 2048 (to_u8 (sar v 4) * 16 + (16 * (to_u8 v % 16) + m) / 16) ≡ v
unfolding in_range to_u8 sar
first_value (pos n) m h k = ground arith
first_value (negsuc n) m h k = ground arith

second_value :
    (v : ℤ) (m : ℕ)
    → in_range 2048 v ≡ true
    → signed 2048 ((16 * m + to_u8 (sar v 8) % 16) % 16 * 256 + to_u8 v) ≡ v
unfolding in_range to_u8 sar
second_value (pos n) m h = ground arith
second_value (negsuc n) m h = ground arith

pub unpack12-pack_pair :
    (v w : ℤ) (bytes : List ℕ)
    → (in_range 2048 v && in_range 2048 w) ≡ true
    → unpack12 (pack_pair v w bytes) ≡ v ∷ w ∷ unpack12 bytes
unfolding pack_pair
unpack12-pack_pair v w bytes h =
    rw
      (
        middle v w,
        first_value v (to_u8 (sar w 8) % 16) (left (in_range 2048 v) (in_range 2048 w) h)
            (omega arith),
        second_value w (to_u8 v % 16) (right (in_range 2048 v) (in_range 2048 w) h),
      )
      refl
  where
    left : (a b : Bool) → (a && b) ≡ true → a ≡ true
    left a b h = ground arith

    right : (a b : Bool) → (a && b) ≡ true → b ≡ true
    right a b h = ground arith
