-- ===== src/Fm/Phase/Bounds.antt =====
-- `fast_atan2` stays in range, and takes the sign of `y`.
use native.Mathlib.Nat.{div-lt_iff_lt-mul}
use rtl_sdr_blog.Common.{
  Bool, Option, arith, false, if◌then◌else◌, none, refl, some, suc, true, zero, ℕ, ◌&&◌, ◌*◌, ◌+◌,
  ◌-◌, ◌/◌, ◌<◌, ◌==◌, ◌^◌, ◌≡◌, ◌≤◌,
}
use rtl_sdr_blog.Common.Int.{neg_part, negsuc, pos, pos_part, sub_ℕ, ℤ, ◌+ℤ◌, ◌-ℤ◌}
use rtl_sdr_blog.Common.Cint.{
  int32, int32_small, is_neg, is_null, magnitude, magnitude-sub_ℕ, negate, quot, ◌>>=◌,
}
use rtl_sdr_blog.Fm.Phase.{angle_up, eighth_times, fast_atan2, pi34, pi4}

-- A quotient of 4096 n by a greater number.
part_bound : (n m : ℕ) → 0 < m → n ≤ m → 4096 * n / m ≤ 4096
part_bound n m h k =
    omega (arith, (div-lt_iff_lt-mul {k = m} {x = 4096 * n} {y = 4097} h).1 (omega arith))

abbrev Part : Option ℤ → Type 0
Part none = ⊥
Part (some a) = magnitude a ≤ 4096

scaled_pos : (k : ℕ) → sub_ℕ k 0 ≡ pos k
scaled_pos k = ground arith

scaled_negsuc : (k : ℕ) → 0 < k → sub_ℕ 0 k ≡ negsuc (k - 1)
scaled_negsuc k h = ground arith

suc_pred : (k : ℕ) → 0 < k → suc (k - 1) ≡ k
suc_pred k h = omega arith

eighth_times-Part :
    (n m : ℤ)
    → magnitude n < 2 ^ 19
    → 0 < pos_part m
    → magnitude n ≤ magnitude m
    → Part (eighth_times n m)
unfolding eighth_times quot
eighth_times-Part n (pos zero) small positive h = absurd (omega arith)
eighth_times-Part n (negsuc m) small positive h = absurd (omega arith)
eighth_times-Part (pos n) (pos (suc m)) small positive h =
    rw (scaled_pos (4096 * n), int32_small (pos (4096 * n)) (omega arith), nonzero)
      (omega (arith, part_bound n (suc m) positive (omega arith)))
  where
    nonzero : (suc m == 0) ≡ false
    nonzero = ground arith
eighth_times-Part (negsuc n) (pos (suc m)) small positive h =
    rw
      (
        scaled_negsuc (4096 * suc n) (omega arith),
        int32_small (negsuc (4096 * suc n - 1)) (omega arith),
        nonzero,
        suc_pred (4096 * suc n) (omega arith),
        magnitude-sub_ℕ (4096 * suc n / suc m),
      )
      (part_bound (suc n) (suc m) positive (omega arith))
  where
    nonzero : (suc m == 0) ≡ false
    nonzero = ground arith

-- An angle from `lo` to `hi`.
abbrev Between : ℕ → ℕ → Option ℤ → Type 0
Between lo hi none = ⊥
Between lo hi (some a) = (neg_part a ≡ 0) × (lo ≤ pos_part a) × (pos_part a ≤ hi)

from_eighth : (o : Option ℤ) → Part o → Between 0 8192 (o >>= λ part. some (pi4 -ℤ part))
unfolding ◌-ℤ◌
from_eighth none bad = bad
from_eighth (some a) h = (ground arith, ground arith, ground arith)

from_three_eighths :
    (o : Option ℤ) → Part o → Between 8192 16384 (o >>= λ part. some (pi34 -ℤ part))
unfolding ◌-ℤ◌
from_three_eighths none bad = bad
from_three_eighths (some a) h = (ground arith, ground arith, ground arith)

sum_pos : (n k : ℕ) → pos n +ℤ pos k ≡ pos (n + k)
unfolding ◌+ℤ◌
sum_pos n k = ground arith

difference_small : (n k : ℕ) → magnitude (pos n -ℤ pos k) ≤ n + k
unfolding ◌-ℤ◌
difference_small n k = ground arith

sum_small : (n k : ℕ) → magnitude (negsuc n +ℤ pos k) ≤ suc n + k
unfolding ◌+ℤ◌
sum_small n k = ground arith

difference_pos : (n k : ℕ) → pos k -ℤ negsuc n ≡ pos (k + suc n)
unfolding ◌-ℤ◌
difference_pos n k = ground arith

angle_right :
    (n k : ℕ) → n < 2 ^ 18 → k < 2 ^ 18 → 0 < n + k → Between 0 8192 (angle_up (pos n) (pos k))
unfolding angle_up
angle_right n k small_x small_y h =
    rw
      (
        sum_pos n k,
        int32_small (pos n -ℤ pos k) (omega (arith, difference_small n k)),
        int32_small (pos (n + k)) (omega arith),
      )
      (from_eighth _ (
        eighth_times-Part (pos n -ℤ pos k) (pos (n + k)) (omega (arith, difference_small n k)) h
          (omega (arith, difference_small n k))))

angle_left :
    (n k : ℕ) → suc n < 2 ^ 18 → k < 2 ^ 18 → Between 8192 16384 (angle_up (negsuc n) (pos k))
unfolding angle_up
angle_left n k small_x small_y =
    rw
      (
        difference_pos n k,
        int32_small (negsuc n +ℤ pos k) (omega (arith, sum_small n k)),
        int32_small (pos (k + suc n)) (omega arith),
      )
      (from_three_eighths _ (
        eighth_times-Part (negsuc n +ℤ pos k) (pos (k + suc n)) (omega (arith, sum_small n k))
          (omega arith) (omega (arith, sum_small n k))))

-- The half plane of `x`, and the sign of `y`.
abbrev pub InQuadrant : ℤ → ℤ → Option ℤ → Type 0
InQuadrant y x none = ⊥
InQuadrant y x (some a) =
    (magnitude a ≤ 16384)
    × (0 < pos_part x → magnitude a ≤ 8192)
    × (0 < neg_part x → 8192 ≤ magnitude a)
    × (0 < neg_part y → pos_part a ≡ 0)
    × (0 < pos_part y → neg_part a ≡ 0)

signed_angle :
    (y x : ℤ) (lo hi : ℕ) (o : Option ℤ)
    → Between lo hi o
    → hi ≤ 16384
    → (0 < pos_part x → hi ≤ 8192)
    → (0 < neg_part x → 8192 ≤ lo)
    → InQuadrant y x (o >>= λ angle. some (if is_neg y then negate angle else angle))
signed_angle y x lo hi none bad top right left = bad
signed_angle (pos n) x lo hi (some a) (sign, low, high) top right left = (
  omega arith,
  (λ p. omega (arith, right p)),
  (λ p. omega (arith, left p)),
  (λ p. omega arith),
  (λ p. sign),
)
signed_angle (negsuc n) x lo hi (some a) (sign, low, high) top right left = (
  ground arith,
  (λ p. ground (arith, right p)),
  (λ p. ground (arith, left p)),
  (λ p. ground arith),
  (λ p. absurd (omega arith)),
)

-- For arguments below 2^18 in size the integer arc tangent overflows no `int` and divides by no
-- zero; its angle is at most a half turn, at most a quarter turn where x is positive and at least
-- that where x is negative, and has the sign of y.
pub fast_atan2-InQuadrant :
    (y x : ℤ) → magnitude y < 2 ^ 18 → magnitude x < 2 ^ 18 → InQuadrant y x (fast_atan2 y x)
unfolding fast_atan2
fast_atan2-InQuadrant y (negsuc n) small_y small_x =
    rw (int32_small (pos (magnitude y)) (omega arith)) (
      signed_angle y (negsuc n) 8192 16384 _
        (angle_left n (magnitude y) (omega (arith, small_x)) small_y) (omega arith)
        (λ p. absurd (omega arith)) (λ p. omega arith))
fast_atan2-InQuadrant y (pos n) small_y small_x = by_test ((n == 0) && is_null y) refl (omega arith)
  where
    off_origin : ((n == 0) && is_null y) ≡ false → 0 < n + magnitude y
    off_origin e = ground arith

    by_test :
        (b : Bool)
        → ((n == 0) && is_null y) ≡ b
        → magnitude y < 2 ^ 31
        → InQuadrant y (pos n) (
            if b
            then some (pos 0)
            else (int32 (pos (magnitude y)) >>= λ yabs.
                angle_up (pos n) yabs >>= λ angle. some (if is_neg y then negate angle else angle)))
    by_test true e small =
        (omega arith, (λ p. omega arith), (λ p. absurd (omega arith)), (λ p. refl), (λ p. refl))
    by_test false e small = rw (int32_small (pos (magnitude y)) (omega (arith, small))) (
        signed_angle y (pos n) 0 8192 _
          (angle_right n (magnitude y) (omega (arith, small_x)) small_y (off_origin e))
          (omega arith) (λ p. omega arith) (λ p. absurd (omega arith)))
