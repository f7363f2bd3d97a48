-- ===== src/Device/Rate/Exact.antt =====
-- With the crystal of 28.8 MHz the resampler gives the rate that is asked for.
use native.Mathlib.Nat.{
  div-lt_iff_lt-mul, le-div_iff_mul-le, div-eq_of_lt-le, div-add-mod, mul-le-mul_left, mod-lt,
}
use rtl_sdr_blog.Common.{
  ap, arith, bit_and, bit_or, false, inl, inr, ltb, refl, some, true, ℕ, ◌%◌, ◌*◌, ◌+◌, ◌-◌, ◌/◌,
  ◌<◌, ◌==◌, ◌^◌, ◌∙◌, ◌≡◌, ◌≤◌, ◌⊎◌,
}
use rtl_sdr_blog.Common.Word.{u32}
use rtl_sdr_blog.Common.Masks.{bit_and_ones, bit_and_shifted, bit_or_above}
use rtl_sdr_blog.Device.Doubles.{Doubles, IsIeee}
use rtl_sdr_blog.Device.Rate.{is_supported, real_rate, real_ratio, resample}

-- The crystal's frequency times 2^22.
abbrev clock : ℕ
clock = 120795955200000

cleared : (q : ℕ) → bit_and q 0x0ffffffc ≡ q / 4 * 4 % 2 ^ 28
cleared q = bit_and_shifted 2 q (2 ^ 26 - 1) ∙ (rw (bit_and_ones 26 (q / 4)) (omega arith))

repeated : (r : ℕ) → r < 2 ^ 28 → real_ratio r ≡ r / 2 ^ 27 * 2 ^ 28 + r
unfolding real_ratio
repeated r h = ap (bit_or r) top_bit ∙ bit_or_above 28 r (r / 2 ^ 27) h
  where
    top_bit : u32 (bit_and r 0x08000000 * 2) ≡ r / 2 ^ 27 * 2 ^ 28
    top_bit = omega (arith, bit_and_shifted 27 r 1, bit_and_ones 1 (r / 2 ^ 27), h)

times_below : (rate q m r n : ℕ) → rate * q + r ≡ n → m ≤ q → rate * m ≤ n
times_below rate q m r n e k = omega (arith, mul-le-mul_left rate k)

times_above :
    (rate q m r n : ℕ) → rate * q + r ≡ n → r < rate → q ≤ m + 3 → 4 * rate ≤ m → n < (rate + 1) * m
times_above rate q m r n e k close big = omega (arith, mul-le-mul_left rate close)

module _ (rate : ℕ) (h : is_supported rate ≡ true) where
  ranges : ((225001 ≤ rate) × (rate ≤ 300000)) ⊎ ((900001 ≤ rate) × (rate ≤ 3200000))
  unfolding is_supported
  ranges = ground arith

  positive : 0 < rate
  positive = omega (arith, ranges)

  below : (n : ℕ) → clock < n * rate → clock / rate < n
  below n k = (div-lt_iff_lt-mul positive).1 k

  above : (n : ℕ) → n * rate ≤ clock → n ≤ clock / rate
  above n k = (le-div_iff_mul-le positive).1 k

  -- Bits 27 and 28 of the quotient are the same, and no bit is above them.
  quotient_ranges :
      ((3 * 2 ^ 27 ≤ clock / rate) × (clock / rate < 2 ^ 29))
      ⊎ ((37748736 ≤ clock / rate) × (clock / rate < 2 ^ 27))
  quotient_ranges = elim ranges [
    | inl r ↦ inl (above (3 * 2 ^ 27) (omega (arith, r)), below (2 ^ 29) (omega (arith, r)))
    | inr r ↦ inr (above 37748736 (omega (arith, r)), below (2 ^ 27) (omega (arith, r)))
  ]

  abbrev sent : ℕ
  sent = clock / rate / 4 * 4 % 2 ^ 28

  taken : real_ratio sent ≡ clock / rate / 4 * 4
  taken = repeated sent (omega arith) ∙ omega (arith, quotient_ranges)

  same_rate : clock / (clock / rate / 4 * 4) ≡ rate
  same_rate =
      div-eq_of_lt-le (clock / rate / 4 * 4)
        (times_below rate (clock / rate) _ (clock % rate) clock (div-add-mod clock rate)
          (omega arith))
        (times_above rate (clock / rate) _ (clock % rate) clock (div-add-mod clock rate)
          (mod-lt clock positive) (omega arith) (omega (arith, ranges, quotient_ranges)))

  module _ (doubles : Doubles) (ieee : IsIeee doubles) where
    -- With the crystal of 28.8 MHz and exact quotients, for each rate that the resampler supports
    -- the ratio that is sent is taken by the chip as the quotient of clock and rate less its two
    -- lowest bits, and the rate that it gives is the one asked for.
    pub resample-exact :
        (real_ratio sent ≡ clock / rate / 4 * 4)
        × (resample doubles 28800000 rate ≡ some (sent, rate))
    unfolding resample real_rate
    resample-exact = (
      taken,
      rw
          (
            ieee.quotient_exact clock rate positive (omega arith),
            fits,
            cleared (clock / rate),
            taken,
            not_zero,
            ieee.quotient_exact clock (clock / rate / 4 * 4) (omega (arith, quotient_ranges))
                (omega arith),
            same_rate,
            rate_fits,
          )
          refl,
    )
      where
        fits : ltb (clock / rate) (2 ^ 32) ≡ true
        fits = ground (arith, quotient_ranges)

        not_zero : (clock / rate / 4 * 4 == 0) ≡ false
        not_zero = ground (arith, quotient_ranges)

        rate_fits : ltb rate (2 ^ 32) ≡ true
        rate_fits = ground (arith, ranges)
