-- ===== src/Device/Tests.antt =====
-- Runs of the device control, and the theorems at concrete inputs.
use rtl_sdr_blog.Common.{arith, refl, some, ◌*◌, ◌+◌, ◌-◌, ◌/◌, ◌≡◌}
use rtl_sdr_blog.Common.Int.{neg_part, pos, pos_part}
use rtl_sdr_blog.State.{no_result}
use rtl_sdr_blog.Usb.Frame.{Within}
use rtl_sdr_blog.R82xx.Gain.{gain_loop}
use rtl_sdr_blog.R82xx.Tests.{dongle, willing}
use rtl_sdr_blog.Device.Doubles.{Doubles, IsIeee}
use rtl_sdr_blog.Device.Center.{center_freq_then, set_center_freq}
use rtl_sdr_blog.Device.Center.Depth.{set_center_freq_deep}
use rtl_sdr_blog.Device.Tuner.{r820t, r820t_core, r820t_core-LeavesDevice}
use rtl_sdr_blog.Device.Rate.{is_supported, real_ratio, resample}
use rtl_sdr_blog.Device.Rate.Exact.{resample-exact}
use rtl_sdr_blog.Device.Gains.Reach.{gain_at, gain_loop-get_tuner_gains}
use rtl_sdr_blog.Device.Control.{set_sample_rate}
use rtl_sdr_blog.Device.Control.Kept.{r820t-LeavesUntuned, set_sample_rate-stores}

-- Arithmetic without rounding.
abbrev pub exact : Doubles
exact = record {
  quotient = λ a b. a / b;
  apply_ppm = λ v ppm. v * (1000000 + pos_part ppm - neg_part ppm) / 1000000;
}

exact-IsIeee : IsIeee exact
exact-IsIeee = record { quotient_exact = λ a b pos small. refl; no_correction = λ v h. omega arith }

set_center_freq_deep_example :
    center_freq_then willing exact
      (r820t_core exact willing)
      (center_freq_then willing exact
        (r820t_core exact willing)
        (center_freq_then willing exact (r820t_core exact willing) (λ f. no_result)))
      7000000
      dongle
    ≡ set_center_freq willing exact (r820t_core exact willing) 7000000 dongle
set_center_freq_deep_example =
    set_center_freq_deep willing exact (r820t_core exact willing)
      (r820t_core-LeavesDevice exact willing) (λ f. no_result) 7000000 dongle

resample-exact_example :
    (real_ratio 134217728 ≡ 402653184) × (resample exact 28800000 300000 ≡ some (134217728, 300000))
unfolding is_supported
resample-exact_example = resample-exact 300000 refl exact exact-IsIeee

set_sample_rate-stores_example :
    Within
      (λ e. e.rate ≡ 2400000)
      (set_sample_rate willing exact (r820t exact willing) 2400000 dongle)
unfolding is_supported
set_sample_rate-stores_example =
    set_sample_rate-stores willing exact (r820t exact willing) (r820t-LeavesUntuned willing exact)
      exact-IsIeee 2400000 dongle refl refl

gain_loop-get_tuner_gains_example : gain_at (gain_loop 15 (pos 100) (pos 0) 0 0) ≡ some (pos 125)
gain_loop-get_tuner_gains_example = gain_loop-get_tuner_gains 100 (omega arith) (omega arith)
