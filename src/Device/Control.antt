-- ===== src/Device/Control.antt =====
-- src/librtlsdr.c: the functions by which a program sets the sample rate, the offset tuning, the
-- clocks, the correction, the bandwidth and the gains.
pub mod Kept
use rtl_sdr_blog.Common.{
  Bool, Option, bit_and, false, if◌then◌else◌, ltb, none, not, some, true, ℕ, ◌&&◌, ◌*◌, ◌+◌, ◌-◌,
  ◌/◌, ◌==◌, ◌^◌, ◌||◌,
}
use rtl_sdr_blog.Common.Int.{i32, pos, same_ℤ, ℤ}
use rtl_sdr_blog.Common.Word.{nonzero, u16, u32}
use rtl_sdr_blog.State.{Dev, Host, M, fail, get, ignore, modify, or_stuck, pure, when, ◌>>=◌, ◌>>◌}
use rtl_sdr_blog.Usb.{demod_write_reg, set_bias_tee, set_i2c_repeater, write_reg}
use rtl_sdr_blog.Usb.Block.{sysb}
use rtl_sdr_blog.Usb.Reg.{demod_ctl}
use rtl_sdr_blog.Device.Codes.{Code, attempt, is_zero, return_code, ◌|=◌}
use rtl_sdr_blog.Device.Doubles.{Doubles}
use rtl_sdr_blog.Device.Clock.{set_if_freq, set_sample_freq_correction, tuner_clock}
use rtl_sdr_blog.Device.Center.{is_rafael, set_center_freq, with_repeater}
use rtl_sdr_blog.Device.Tuner.{Tuner}
use rtl_sdr_blog.Device.Rate.{is_supported, resample}

abbrev pub def_rtl_xtal_freq : ℕ
def_rtl_xtal_freq = 28800000

abbrev pub min_rtl_xtal_freq : ℕ
min_rtl_xtal_freq = def_rtl_xtal_freq - 1000

abbrev pub max_rtl_xtal_freq : ℕ
max_rtl_xtal_freq = def_rtl_xtal_freq + 1000

-- The offset of the tuner's frequency for a sample rate.
unfoldable pub offset_for : ℕ → ℕ
offset_for rate = u32 (rate / 2 * 170) / 100

-- The bandwidth where none was asked for is the sample rate.
abbrev pub bandwidth : Dev → ℕ
bandwidth d = if ltb 0 d.bw then d.bw else d.rate

-- The bandwidth that offset tuning sets.
abbrev pub offset_bandwidth : Bool → Dev → ℤ
offset_bandwidth on d = if on then i32 (u32 (2 * d.offs_freq)) else i32 (bandwidth d)

module _ (host : Host) (doubles : Doubles) (tuner : Tuner) where
  -- `dev->tuner->set_bw` where it is not null, with the I2C repeater on; its result is not looked at.
  unfoldable pub apply_bw : Option (ℤ → M (Unit {0})) → ℤ → M (Unit {0})
  apply_bw none bw = pure tt
  apply_bw (some set_bw) bw = do
    set_i2c_repeater host true
    ignore (set_bw bw)
    set_i2c_repeater host false

  unfoldable pub retune_if : (Dev → Bool) → M (Unit {0})
  retune_if test = do d ← get; when (test d) (set_center_freq host doubles tuner.core d.freq)

  unfoldable pub offset_tuning_on : Bool → M (Unit {0})
  offset_tuning_on on = do
    modify (λ d. record d { offs_freq = if on then offset_for d.rate else 0 })
    (do d ← get; set_if_freq doubles host d.offs_freq) |= (do
      d ← get
      apply_bw tuner.set_bw (offset_bandwidth on d)
      retune_if (λ e. ltb e.offs_freq e.freq))

  unfoldable pub set_offset_tuning : Bool → M (Unit {0})
  set_offset_tuning on = do
    d ← get
    if is_rafael d.tuner_type
        then (do set_bias_tee host on; fail 1)
        else if nonzero d.direct_sampling
        then fail 2
        else offset_tuning_on on

  -- What is written once the rate is stored.
  unfoldable pub rate_writes : ℕ → M (Unit {0})
  rate_writes rsamp_ratio =
      demod_write_reg host 1 0x9f (u16 (rsamp_ratio / 2 ^ 16)) 2
      |= demod_write_reg host 1 0xa1 (bit_and rsamp_ratio 0xffff) 2
      |= (do d ← get; set_sample_freq_correction doubles host d.corr)
      |= demod_write_reg host 1 0x01 0x14 1
      |= demod_write_reg host 1 0x01 0x10 1

  unfoldable pub change_rate : ℕ × ℕ → M (Unit {0})
  change_rate (rsamp_ratio, rate) = do
    modify (λ d. record d { rate = rate })
    d ← get
    apply_bw tuner.set_bw (i32 (bandwidth d))
    r ← attempt (rate_writes rsamp_ratio)
    e ← get
    when (nonzero e.offs_freq) (ignore (set_offset_tuning true))
    return_code r

  unfoldable pub set_sample_rate : ℕ → M (Unit {0})
  set_sample_rate samp_rate =
      if is_supported samp_rate
      then (do d ← get; new ← or_stuck (resample doubles d.rtl_xtal samp_rate); change_rate new)
      else fail 21

  -- The corrected clock goes to the records of both tuners.
  unfoldable pub update_clocks : M (Unit {0})
  update_clocks = modify (λ d. record d {
    e4k = record d.e4k { vco = record d.e4k.vco { fosc = tuner_clock doubles d } };
    r82xx = record d.r82xx { xtal = tuner_clock doubles d };
  })

  unfoldable pub change_rtl_xtal : ℕ → M (Unit {0})
  change_rtl_xtal rtl_freq = do
    d ← get
    when (ltb 0 rtl_freq && not (d.rtl_xtal == rtl_freq)) (do
      modify (λ e. record e { rtl_xtal = rtl_freq })
      e ← get
      when (nonzero e.rate) (set_sample_rate e.rate))

  -- `r` is what the change of the other clock returned; a retuning replaces it.
  unfoldable pub change_tun_xtal : ℕ → Code → M (Unit {0})
  change_tun_xtal tuner_freq r = do
    d ← get
    if d.tun_xtal == tuner_freq then return_code r else (do
      modify (λ e. record e { tun_xtal = if tuner_freq == 0 then e.rtl_xtal else tuner_freq })
      update_clocks
      e ← get
      if nonzero e.freq then set_center_freq host doubles tuner.core e.freq else return_code r)

  unfoldable pub set_xtal_freq : ℕ → ℕ → M (Unit {0})
  set_xtal_freq rtl_freq tuner_freq =
      if ltb 0 rtl_freq && (ltb rtl_freq min_rtl_xtal_freq || ltb max_rtl_xtal_freq rtl_freq)
      then fail 1
      else (do r ← attempt (change_rtl_xtal rtl_freq); change_tun_xtal tuner_freq r)

  unfoldable pub set_freq_correction : ℤ → M (Unit {0})
  set_freq_correction ppm = do
    d ← get
    if same_ℤ d.corr ppm then fail 1 else (do
      modify (λ e. record e { corr = ppm })
      set_sample_freq_correction doubles host ppm
          |= (do update_clocks; retune_if (λ e. nonzero e.freq)))

  unfoldable pub set_tuner_bandwidth_with : Option (ℤ → M (Unit {0})) → ℕ → M (Unit {0})
  set_tuner_bandwidth_with none bw = pure tt
  set_tuner_bandwidth_with (some set_bw) bw = do
    d ← get
    with_repeater host doubles tuner.core (some (set_bw (i32 (if ltb 0 bw then bw else d.rate))))
    modify (λ e. record e { bw = bw })

  unfoldable pub set_tuner_bandwidth : ℕ → M (Unit {0})
  set_tuner_bandwidth bw = set_tuner_bandwidth_with tuner.set_bw bw

  -- A call that leaves the repeater on.
  unfoldable pub leave_repeater_on : {A : Type 0} → Option A → (A → M (Unit {0})) → M (Unit {0})
  leave_repeater_on none call = pure tt
  leave_repeater_on (some f) call = do set_i2c_repeater host true; call f

  unfoldable pub set_tuner_gain : ℤ → M (Unit {0})
  set_tuner_gain gain = do
    r ← attempt (leave_repeater_on tuner.set_gain (λ f. f gain))
    modify (λ d. record d { gain = if is_zero r then gain else pos 0 })
    return_code r

  unfoldable pub set_tuner_if_gain : ℤ → ℤ → M (Unit {0})
  set_tuner_if_gain stage gain = leave_repeater_on tuner.set_if_gain (λ f. f stage gain)

  unfoldable pub set_tuner_gain_mode : Bool → M (Unit {0})
  set_tuner_gain_mode mode = leave_repeater_on tuner.set_gain_mode (λ f. f mode)

  unfoldable pub set_testmode : Bool → M (Unit {0})
  set_testmode on = demod_write_reg host 0 0x19 (if on then 0x03 else 0x05) 1

  unfoldable pub set_agc_mode : Bool → M (Unit {0})
  set_agc_mode on = demod_write_reg host 0 0x19 (if on then 0x25 else 0x05) 1

  -- The result is that of the tuner's function.
  unfoldable pub deinit_baseband : M (Unit {0})
  deinit_baseband = do
    r ← attempt (with_repeater host doubles tuner.core tuner.core.exit)
    ignore (write_reg host sysb demod_ctl 0x20 1)
    return_code r
