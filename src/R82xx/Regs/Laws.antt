-- ===== src/R82xx/Regs/Laws.antt =====
-- `r82xx_bitrev` reverses the bits of a byte.
use rtl_sdr_blog.Common.{==_iff, Bool, refl, true, ℕ, ◌%◌, ◌-◌, ◌/◌, ◌<◌, ◌==◌, ◌^◌, ◌≡◌}
use rtl_sdr_blog.Common.Bits.{all_below, all_below_lem}
use rtl_sdr_blog.R82xx.Regs.{bitrev}

-- The test of one byte, at all eight bits.
abbrev is_reversed : ℕ → Bool
is_reversed x = all_below 8 (λ i. bitrev x / 2 ^ (7 - i) % 2 == x / 2 ^ i % 2)

all_reversed : all_below 256 is_reversed ≡ true
unfolding all_below bitrev
all_reversed = refl

-- For each byte and each bit i of its 8, bit 7 - i of the reversed byte is bit i of the byte.
pub bitrev_lem : (x i : ℕ) → x < 256 → i < 8 → bitrev x / 2 ^ (7 - i) % 2 ≡ x / 2 ^ i % 2
bitrev_lem x i h k = (==_iff _ _).0 (
    all_below_lem 8 (λ j. bitrev x / 2 ^ (7 - j) % 2 == x / 2 ^ j % 2) i
      (all_below_lem 256 is_reversed x all_reversed h) k)
