-- ===== src/Fc0013/Pll.antt =====
-- With the crystal of 28.8 MHz the PLL of the FC0013 is set to the frequency of the VCO.
use rtl_sdr_blog.Common.{arith, ℕ, ◌*◌, ◌+◌, ◌<◌, ◌^◌, ◌≡◌, ◌≤◌, ◌⊎◌}
use rtl_sdr_blog.Fc0012.Pll.{half_xtal, regs_for, regs_near, stands_for}
use rtl_sdr_blog.Fc0013.{fc0013_divider, fc0013_vco_freq}

-- The two bands that the PLL reaches: 22 to 948.6 MHz, and 950 to 1897.2 MHz.
abbrev pub InBand : ℕ → Type 0
InBand freq = ((22000000 ≤ freq) × (freq < 948600000)) ⊎ ((950000000 ≤ freq) × (freq < 1897200000))

fc0013_vco_freq-exact :
    (freq : ℕ) → InBand freq → fc0013_vco_freq freq ≡ freq * (fc0013_divider freq).multi
unfolding fc0013_vco_freq fc0013_divider
fc0013_vco_freq-exact freq h = ground arith

fc0013_vco_range :
    (freq : ℕ)
    → InBand freq
    → (1900000000 ≤ fc0013_vco_freq freq) × (fc0013_vco_freq freq ≤ 3794399999)
unfolding fc0013_vco_freq fc0013_divider
fc0013_vco_range freq h = ground arith

abbrev pub fc0013_programmed : ℕ → ℕ
fc0013_programmed freq = stands_for (fc0013_vco_freq freq)

abbrev pub fc0013_wanted : ℕ → ℕ
fc0013_wanted freq = 2 ^ 15 * (freq * (fc0013_divider freq).multi) + half_xtal * 2 ^ 15

-- With the crystal of 28.8 MHz and a frequency from 22 MHz to just below 948.6 MHz, or from 950
-- MHz to just below 1897.2 MHz, the values for registers 1 and 2 of the FC0013 pass the check on
-- the PLL, and the frequency of the VCO that registers 1 to 4 stand for is the multiple of the
-- frequency that was asked for, or below it by no more than the 1000 Hz and the step of 2^-15 of
-- the divider that are cut off.
pub fc0013_programmed-near :
    (freq : ℕ)
    → InBand freq
    → ((regs_for (fc0013_vco_freq freq)).0 ≤ 15)
      × (11 ≤ (regs_for (fc0013_vco_freq freq)).1)
      × (fc0013_programmed freq ≤ fc0013_wanted freq)
      × (fc0013_wanted freq ≤ fc0013_programmed freq + 1000 * 2 ^ 15 + half_xtal)
fc0013_programmed-near freq h = (
  found.0,
  found.1,
  omega (arith, found.2, fc0013_vco_freq-exact freq h),
  omega (arith, found.3, fc0013_vco_freq-exact freq h),
)
  where
    found :
        ((regs_for (fc0013_vco_freq freq)).0 ≤ 15)
        × (11 ≤ (regs_for (fc0013_vco_freq freq)).1)
        × (stands_for (fc0013_vco_freq freq) ≤ 2 ^ 15 * fc0013_vco_freq freq + half_xtal * 2 ^ 15)
        × (2 ^ 15 * fc0013_vco_freq freq + half_xtal * 2 ^ 15
            ≤ stands_for (fc0013_vco_freq freq) + 1000 * 2 ^ 15 + half_xtal)
    found = regs_near (fc0013_vco_freq freq) (fc0013_vco_range freq h).0 (fc0013_vco_range freq h).1
