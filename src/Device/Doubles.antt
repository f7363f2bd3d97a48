-- ===== src/Device/Doubles.antt =====
-- What src/librtlsdr.c computes in `double`s: parameters of the model, with the laws of IEEE
-- arithmetic that the theorems rely on.
use rtl_sdr_blog.Common.{ℕ, ◌/◌, ◌<◌, ◌^◌, ◌≡◌}
use rtl_sdr_blog.Common.Int.{pos, ℤ}

-- The quotient of two integers, and a frequency times 1.0 + ppm / 1e6, each cut to an integer.
pub record Doubles : Type 0 where
  pub quotient : ℕ → ℕ → ℕ
  pub apply_ppm : ℕ → ℤ → ℕ

-- A dividend below 2^52 is exact, and its quotient is too far from the next integer to round to it.
-- No correction changes nothing.
pub record IsIeee (doubles : Doubles) : Type 0 where
  pub quotient_exact : (a b : ℕ) → 0 < b → a < 2 ^ 52 → doubles.quotient a b ≡ a / b
  pub no_correction : (v : ℕ) → v < 2 ^ 32 → doubles.apply_ppm v (pos 0) ≡ v
