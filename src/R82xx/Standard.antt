-- ===== src/R82xx/Standard.antt =====
-- src/tuner_r82xx.c, `r82xx_set_tv_standard`: the filter calibration and the IF filter.
use rtl_sdr_blog.Common.{
  Bool, List, [], bit_and, bit_or, false, get_or, if◌then◌else◌, not, suc, true, zero, ℕ, ◌&&◌, ◌*◌,
  ◌==◌, ◌∷◌,
}
use rtl_sdr_blog.Common.Word.{nonzero}
use rtl_sdr_blog.State.{Host, M, TvType, get_r82xx, modify_r82xx, pure, when, ◌>>=◌, ◌>>◌}
use rtl_sdr_blog.Usb.{status}
use rtl_sdr_blog.R82xx.Tables.{init_array, ver_num}
use rtl_sdr_blog.R82xx.Regs.{RegWrite, masked, read, write_all}
use rtl_sdr_blog.R82xx.Pll.{set_pll}
use rtl_sdr_blog.R82xx.Sysfreq.{is_analog}

abbrev pub if_khz : ℕ
if_khz = 3570

abbrev pub filt_cal_lo : ℕ
filt_cal_lo = 56000

abbrev pub hp_cor : ℕ
hp_cor = 0x6b

-- The settings for a bandwidth below 6 MHz, in the order in which they are written: `hp_cor`,
-- `img_r`, `filt_gain`, `ext_enable`, `loop_through`, `lt_att`, `flt_ext_widest`, `polyfil_cur`.
unfoldable pub filter_writes : ℕ → List RegWrite
filter_writes fil_cal_code =
    masked 0x0a (bit_or 0x10 fil_cal_code) 0x1f
    ∷ masked 0x0b hp_cor 0xef
    ∷ masked 0x07 0x00 0x80
    ∷ masked 0x06 0x30 0x30
    ∷ masked 0x1e 0x60 0x60
    ∷ masked 0x05 0x80 0x80
    ∷ masked 0x1f 0x00 0x80
    ∷ masked 0x0f 0x00 0x80
    ∷ masked 0x19 0x60 0x60
    ∷ []

module _ (host : Host) where
  -- The rounds of the calibration. `false` is the early `return rc` with `rc` 0 when the PLL has
  -- no lock; the code that was read stands in the state.
  unfoldable pub calibrate : ℕ → M Bool
  calibrate zero = pure true
  calibrate (suc left) = do
    let again = calibrate left
    write_all host (masked 0x0b hp_cor 0x60 ∷ masked 0x0f 0x04 0x04 ∷ masked 0x10 0x00 0x03 ∷ [])
    set_pll host (filt_cal_lo * 1000)
    p ← get_r82xx
    if not p.has_lock then pure false else (do
      write_all host (masked 0x0b 0x10 0x10 ∷ masked 0x0b 0x00 0x10 ∷ masked 0x0f 0x00 0x04 ∷ [])
      status ← read host 0x00 5
      let code = bit_and (get_or status 4 0) 0x0f
      modify_r82xx (λ q. record q { fil_cal_code = code })
      if nonzero code && not (code == 0x0f) then pure true else again)

  -- From the calibrated filter code to the end.
  unfoldable pub finish_standard : ℕ → TvType → ℕ → M (Unit {0})
  finish_standard bw type delsys = do
    modify_r82xx
        (λ q. record q { fil_cal_code = if q.fil_cal_code == 0x0f then 0 else q.fil_cal_code })
    p ← get_r82xx
    write_all host (filter_writes p.fil_cal_code)
    modify_r82xx (λ q. record q { delsys = delsys; tv_type = type; bw = bw })

  unfoldable pub set_tv_standard : ℕ → TvType → ℕ → M (Unit {0})
  set_tv_standard bw type delsys = do
    modify_r82xx (λ q. record q { regs = init_array })
    write_all host (
        masked 0x0c 0x00 0x0f
        ∷ masked 0x13 ver_num 0x3f
        ∷ (if is_analog type then [] else masked 0x1d 0x00 0x38 ∷ []))
    modify_r82xx (λ q. record q { int_freq = if_khz * 1000 })
    ready ← calibrate 2
    when ready (finish_standard bw type delsys)
