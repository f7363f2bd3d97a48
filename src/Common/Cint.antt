-- ===== src/Common/Cint.antt =====
-- What C does with an `int`: division that cuts towards zero, shifts, the cast to `int16_t`, and
-- the range outside which a result is undefined.
use rtl_sdr_blog.Common.{
  Bool, Option, arith, false, if◌then◌else◌, leb, ltb, none, some, suc, true, ℕ, ◌%◌, ◌&&◌, ◌*◌,
  ◌+◌, ◌-◌, ◌/◌, ◌<◌, ◌==◌, ◌^◌, ◌≡◌,
}
use rtl_sdr_blog.Common.Int.{neg_part, negsuc, pos, pos_part, sub_ℕ, ℤ}

abbrev pub negate : ℤ → ℤ
negate a = sub_ℕ (neg_part a) (pos_part a)

-- For a divisor that is not 0.
unfoldable pub quot : ℤ → ℤ → ℤ
quot (pos a) (pos b) = pos (a / b)
quot (pos a) (negsuc b) = sub_ℕ 0 (a / suc b)
quot (negsuc a) (pos b) = sub_ℕ 0 (suc a / b)
quot (negsuc a) (negsuc b) = pos (suc a / suc b)

-- `a >> k`.
unfoldable pub shr : ℤ → ℕ → ℤ
shr (pos n) k = pos (n / 2 ^ k)
shr (negsuc n) k = negsuc (n / 2 ^ k)

-- `a << k`.
abbrev pub shl : ℤ → ℕ → ℤ
shl a k = sub_ℕ (pos_part a * 2 ^ k) (neg_part a * 2 ^ k)

-- The 16 bits of an integer as an `int16_t`.
unfoldable pub i16 : ℤ → ℤ
i16 (pos n) =
    if ltb (n % 2 ^ 16) (2 ^ 15) then pos (n % 2 ^ 16) else negsuc (2 ^ 16 - 1 - n % 2 ^ 16)
i16 (negsuc n) =
    if ltb (n % 2 ^ 16) (2 ^ 15) then negsuc (n % 2 ^ 16) else pos (2 ^ 16 - 1 - n % 2 ^ 16)

-- The value of an `int`: `none` where it does not fit.
abbrev pub int32 : ℤ → Option ℤ
int32 a = if ltb (pos_part a) (2 ^ 31) && leb (neg_part a) (2 ^ 31) then some a else none

abbrev pub is_neg : ℤ → Bool
is_neg (pos n) = false
is_neg (negsuc n) = true

abbrev pub is_null : ℤ → Bool
is_null (pos n) = n == 0
is_null (negsuc n) = false

abbrev pub magnitude : ℤ → ℕ
magnitude a = pos_part a + neg_part a

-- Steps that may have no defined result.
infixl 5 ◌>>=◌
abbrev pub ◌>>=◌ : {A B : Type 0} → Option A → (A → Option B) → Option B
o >>= f = elim o [ none ↦ none | some a ↦ f a ]

pub int32_small : (a : ℤ) → magnitude a < 2 ^ 31 → int32 a ≡ some a
int32_small a h = ground arith

pub magnitude-sub_ℕ : (k : ℕ) → magnitude (sub_ℕ 0 k) ≡ k
magnitude-sub_ℕ k = ground arith
