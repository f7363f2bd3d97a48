-- ===== src/Common/Masks.antt =====
-- `bit_and` and `bit_or` with masks that are runs of ones or single bits, at any width.
use Prim.Native.Nat.{digits, bit_and-bitwise, bit_or-bitwise}
use native.Mathlib.Nat.{
  pow-suc, one-le-pow, mod-add-div, add-mul-mod_self_left, mod-eq_of_lt, mod-lt, div-div-eq-div-mul,
}
use rtl_sdr_blog.Common.{
  ap, arith, bit_and, bit_or, max, min, refl, suc, sym, zero, ℕ, ◌%◌, ◌*◌, ◌+◌, ◌-◌, ◌/◌, ◌<◌, ◌^◌,
  ◌∙◌, ◌≡◌, ◌≤◌,
}

-- Digits to go beyond those of the first number make no difference.
digits_enough :
    (z : ℕ → ℕ) (f : ℕ → ℕ → ℕ) (n m a b : ℕ) → a ≤ n → a ≤ m → digits z f n a b ≡ digits z f m a b
digits_enough z f zero zero a b p q = refl
digits_enough z f zero (suc m) zero b p q = refl
digits_enough z f zero (suc m) (suc a) b p q = absurd (omega arith)
digits_enough z f (suc n) zero zero b p q = refl
digits_enough z f (suc n) zero (suc a) b p q = absurd (omega arith)
digits_enough z f (suc n) (suc m) zero b p q = refl
digits_enough z f (suc n) (suc m) (suc a) b p q =
    ap (λ r. r * 2 + f (suc a % 2) (b % 2))
      (digits_enough z f n m (suc a / 2) (b / 2) (omega arith) (omega arith))

bit_and-halves : (a b : ℕ) → bit_and a b ≡ bit_and (a / 2) (b / 2) * 2 + min (a % 2) (b % 2)
bit_and-halves zero b = omega (arith, bit_and-bitwise 0 b, bit_and-bitwise 0 (b / 2))
bit_and-halves (suc a) b =
    bit_and-bitwise (suc a) b
    ∙ ap (λ r. r * 2 + min (suc a % 2) (b % 2))
        (digits_enough (λ c. zero) min a (suc a / 2) (suc a / 2) (b / 2) (omega arith) (omega arith)
          ∙ sym (bit_and-bitwise (suc a / 2) (b / 2)))

bit_or-halves : (a b : ℕ) → bit_or a b ≡ bit_or (a / 2) (b / 2) * 2 + max (a % 2) (b % 2)
bit_or-halves zero b = omega (arith, bit_or-bitwise 0 b, bit_or-bitwise 0 (b / 2))
bit_or-halves (suc a) b =
    bit_or-bitwise (suc a) b
    ∙ ap (λ r. r * 2 + max (suc a % 2) (b % 2))
        (digits_enough (λ c. c) max a (suc a / 2) (suc a / 2) (b / 2) (omega arith) (omega arith)
          ∙ sym (bit_or-bitwise (suc a / 2) (b / 2)))

bit_and_none : (n a : ℕ) → a ≤ n → bit_and a 0 ≡ 0
bit_and_none n zero h = refl
bit_and_none zero (suc a) h = absurd (omega arith)
bit_and_none (suc n) (suc a) h =
    omega (arith, bit_and-halves (suc a) 0, bit_and_none n (suc a / 2) (omega arith))

mod_halves : (a p : ℕ) → 0 < p → a % (p * 2) ≡ a / 2 % p * 2 + a % 2
mod_halves a p h =
    ap (λ n. n % (p * 2)) {x = a} (omega (arith, mod-add-div (a / 2) p))
    ∙ (add-mul-mod_self_left (a / 2 % p * 2 + a % 2) (p * 2) (a / 2 / p)
        ∙ mod-eq_of_lt (omega (arith, mod-lt (a / 2) h)))

-- The k lowest bits.
pub bit_and_ones : (k a : ℕ) → bit_and a (2 ^ k - 1) ≡ a % 2 ^ k
bit_and_ones zero a = bit_and_none a a (omega arith) ∙ omega arith
bit_and_ones (suc k) a = rw (pow-suc 2 k) (
    omega (
      arith,
      bit_and-halves a (2 ^ k * 2 - 1),
      positive,
      halved,
      bit_and_ones k (a / 2),
      mod_halves a (2 ^ k) positive,
    ))
  where
    positive : 0 < 2 ^ k
    positive = one-le-pow k 2 (omega arith)

    halved : bit_and (a / 2) ((2 ^ k * 2 - 1) / 2) ≡ bit_and (a / 2) (2 ^ k - 1)
    halved = ap (bit_and (a / 2)) (omega (arith, positive))

-- A mask shifted by k bits.
pub bit_and_shifted : (k a b : ℕ) → bit_and a (b * 2 ^ k) ≡ bit_and (a / 2 ^ k) b * 2 ^ k
bit_and_shifted zero a b = rw (one_shift a, one_times b) (omega arith)
  where
    one_shift : (a : ℕ) → a / 1 ≡ a
    one_shift a = omega arith

    one_times : (b : ℕ) → b * 1 ≡ b
    one_times b = omega arith
bit_and_shifted (suc k) a b = rw (pow-suc 2 k) (
    ap (bit_and a) regrouped
    ∙ (bit_and_shifted k a (b * 2) ∙ (ap (λ r. r * 2 ^ k) last_bit ∙ regrouped_back)))
  where
    regrouped : b * (2 ^ k * 2) ≡ b * 2 * 2 ^ k
    regrouped = omega arith

    halved : b * 2 / 2 ≡ b
    halved = omega arith

    even : b * 2 % 2 ≡ 0
    even = omega arith

    last_bit : bit_and (a / 2 ^ k) (b * 2) ≡ bit_and (a / (2 ^ k * 2)) b * 2
    last_bit =
        bit_and-halves (a / 2 ^ k) (b * 2)
        ∙ rw (div-div-eq-div-mul a (2 ^ k) 2, halved, even) (omega arith)

    regrouped_back :
        bit_and (a / (2 ^ k * 2)) b * 2 * 2 ^ k ≡ bit_and (a / (2 ^ k * 2)) b * (2 ^ k * 2)
    regrouped_back = omega arith

-- Bits above the first number.
pub bit_or_above : (k a b : ℕ) → a < 2 ^ k → bit_or a (b * 2 ^ k) ≡ b * 2 ^ k + a
bit_or_above zero zero b h = omega (arith, bit_or-bitwise 0 (b * 1))
bit_or_above zero (suc a) b h = absurd (omega arith)
bit_or_above (suc k) a b h =
    bit_or-halves a (b * 2 ^ suc k)
    ∙ omega (arith, halved, even, doubled, bit_or_above k (a / 2) b (omega (arith, pow-suc 2 k)))
  where
    doubled : b * 2 ^ suc k ≡ b * 2 ^ k * 2
    doubled = rw (pow-suc 2 k) (omega arith)

    halved : bit_or (a / 2) (b * 2 ^ suc k / 2) ≡ bit_or (a / 2) (b * 2 ^ k)
    halved = ap (bit_or (a / 2)) (omega (arith, doubled))

    even : max (a % 2) (b * 2 ^ suc k % 2) ≡ a % 2
    even = omega (arith, doubled)
