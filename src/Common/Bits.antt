-- ===== src/Common/Bits.antt =====
-- Facts about `bit_and` and `bit_or` on bytes, by going through all of them.
use rtl_sdr_blog.Common.{
  ==_iff, Bool, arith, bit_and, bit_or, refl, suc, true, zero, ℕ, ◌%◌, ◌&&◌, ◌*◌, ◌+◌, ◌/◌, ◌<◌,
  ◌==◌, ◌≡◌,
}
use native.Mathlib.Decide.{dec_lt}

unfoldable pub all_below : ℕ → (ℕ → Bool) → Bool
all_below zero p = true
all_below (suc n) p = p n && all_below n p

pub all_below_lem : (n : ℕ) (p : ℕ → Bool) (k : ℕ) → all_below n p ≡ true → k < n → p k ≡ true
unfolding all_below
all_below_lem zero p k h less = absurd (omega arith)
all_below_lem (suc n) p k h less = elim (dec_lt k n) [
  | no last ↦ rw (same last) (&&-left (p n) (all_below n p) h)
  | yes below ↦ all_below_lem n p k (&&-right (p n) (all_below n p) h) below
]
  where
    &&-left : (a b : Bool) → (a && b) ≡ true → a ≡ true
    &&-left a b h = ground arith

    same : ¬ (k < n) → k ≡ n
    same last = omega arith

    &&-right : (a b : Bool) → (a && b) ≡ true → b ≡ true
    &&-right a b h = ground arith

low_nibbles : all_below 256 (λ x. bit_and x 0x0f == x % 16) ≡ true
unfolding all_below
low_nibbles = refl

pub bit_and_nibble : (x : ℕ) → x < 256 → bit_and x 0x0f ≡ x % 16
bit_and_nibble x h =
    (==_iff _ _).0 (all_below_lem 256 (λ x. bit_and x 0x0f == x % 16) x low_nibbles h)

two_nibbles : all_below 256 (λ x. bit_or (x / 16 * 16) (x % 16) == x) ≡ true
unfolding all_below
two_nibbles = refl

-- A high and a low nibble do not overlap.
pub bit_or_nibbles : (a b : ℕ) → a < 16 → b < 16 → bit_or (16 * a) b ≡ 16 * a + b
bit_or_nibbles a b h k = rw (hi, lo) at joined
  where
    joined : bit_or ((16 * a + b) / 16 * 16) ((16 * a + b) % 16) ≡ 16 * a + b
    joined = (==_iff _ _).0 (
        all_below_lem 256 (λ x. bit_or (x / 16 * 16) (x % 16) == x) (16 * a + b) two_nibbles
          (omega arith))

    hi : (16 * a + b) / 16 * 16 ≡ 16 * a
    hi = omega arith

    lo : (16 * a + b) % 16 ≡ b
    lo = omega arith
