-- ===== src/Fc0013/Tests.antt =====
-- The PLL of the FC0013 at 1.1 GHz.
use rtl_sdr_blog.Common.{arith, inr, ◌*◌, ◌+◌, ◌^◌, ◌≤◌}
use rtl_sdr_blog.Fc0012.Pll.{half_xtal, regs_for}
use rtl_sdr_blog.Fc0013.{fc0013_vco_freq}
use rtl_sdr_blog.Fc0013.Pll.{fc0013_programmed, fc0013_programmed-near, fc0013_wanted}

fc0013_programmed-near_example :
    ((regs_for (fc0013_vco_freq 1100000000)).0 ≤ 15)
    × (11 ≤ (regs_for (fc0013_vco_freq 1100000000)).1)
    × (fc0013_programmed 1100000000 ≤ fc0013_wanted 1100000000)
    × (fc0013_wanted 1100000000 ≤ fc0013_programmed 1100000000 + 1000 * 2 ^ 15 + half_xtal)
fc0013_programmed-near_example = fc0013_programmed-near 1100000000 (inr (omega arith, omega arith))
