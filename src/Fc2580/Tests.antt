-- ===== src/Fc2580/Tests.antt =====
-- The PLL of the FC2580 at 100 MHz.
use rtl_sdr_blog.Common.{arith, ◌*◌, ◌≡◌}
use rtl_sdr_blog.Fc2580.{band_mult, band_of, crystal_freq_khz, pll_for, vco_of}
use rtl_sdr_blog.Fc2580.Pll.{IsSetTo, pll_for-IsSetTo}

pll_for-IsSetTo_example :
    (vco_of 100000 ≡ 100000 * band_mult (band_of 100000))
    × IsSetTo (vco_of 100000) (pll_for (vco_of 100000) crystal_freq_khz)
pll_for-IsSetTo_example = pll_for-IsSetTo 100000 (omega arith)
