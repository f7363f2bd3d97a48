-- ===== src/Fc0012/Tests.antt =====
-- The PLL of the FC0012 at 100 MHz.
use rtl_sdr_blog.Common.{arith, ◌*◌, ◌+◌, ◌^◌, ◌≤◌}
use rtl_sdr_blog.Fc0012.{vco_freq}
use rtl_sdr_blog.Fc0012.Pll.{half_xtal, programmed, programmed-near, regs_for, wanted}

programmed-near_example :
    ((regs_for (vco_freq 100000000)).0 ≤ 15)
    × (11 ≤ (regs_for (vco_freq 100000000)).1)
    × (programmed 100000000 ≤ wanted 100000000)
    × (wanted 100000000 ≤ programmed 100000000 + 1000 * 2 ^ 15 + half_xtal)
programmed-near_example = programmed-near 100000000 (omega arith) (omega arith)
