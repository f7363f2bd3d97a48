-- ===== src/Device/Rate.antt =====
-- src/librtlsdr.c: the resampler's ratio for a sample rate, in `rtlsdr_set_sample_rate`.
pub mod Exact
use rtl_sdr_blog.Common.{
  Bool, Option, bit_and, bit_or, if◌then◌else◌, leb, ltb, none, not, some, ℕ, ◌&&◌, ◌*◌, ◌==◌, ◌^◌,
  ◌||◌,
}
use rtl_sdr_blog.Common.Word.{u32}
use rtl_sdr_blog.Device.Doubles.{Doubles}

-- Whether the resampler supports the rate.
unfoldable pub is_supported : ℕ → Bool
is_supported samp_rate = not (
    leb samp_rate 225000 || ltb 3200000 samp_rate || (ltb 300000 samp_rate && leb samp_rate 900000))

-- A `double` as a `uint32_t`: `none` where it does not fit.
abbrev pub to_u32 : ℕ → Option ℕ
to_u32 n = if ltb n (2 ^ 32) then some n else none

-- The ratio that the chip takes from the one that it is sent: bit 27 is repeated in bit 28.
unfoldable pub real_ratio : ℕ → ℕ
real_ratio rsamp_ratio = bit_or rsamp_ratio (u32 (bit_and rsamp_ratio 0x08000000 * 2))

module _ (doubles : Doubles) where
  -- A division by a zero ratio gives an infinity, which is no `uint32_t`.
  unfoldable pub real_rate : ℕ → ℕ → Option ℕ
  real_rate rtl_xtal ratio =
      if ratio == 0 then none else to_u32 (doubles.quotient (rtl_xtal * 2 ^ 22) ratio)

  -- The ratio that is sent, and the rate that it gives, from the quotient.
  abbrev pub rate_of : ℕ → Option ℕ → Option (ℕ × ℕ)
  rate_of rsamp_ratio none = none
  rate_of rsamp_ratio (some rate) = some (rsamp_ratio, rate)

  abbrev pub resample_by : ℕ → Option ℕ → Option (ℕ × ℕ)
  resample_by rtl_xtal none = none
  resample_by rtl_xtal (some quotient) =
      let rsamp_ratio = bit_and quotient 0x0ffffffc in
      rate_of rsamp_ratio (real_rate rtl_xtal (real_ratio rsamp_ratio))

  unfoldable pub resample : ℕ → ℕ → Option (ℕ × ℕ)
  resample rtl_xtal samp_rate =
      resample_by rtl_xtal (to_u32 (doubles.quotient (rtl_xtal * 2 ^ 22) samp_rate))
