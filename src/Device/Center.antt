-- ===== src/Device/Center.antt =====
-- src/librtlsdr.c: `rtlsdr_set_center_freq` and `_rtlsdr_set_direct_sampling`, which call each other.
pub mod Frame
pub mod Depth
use Prim.Native.String.{String}
use rtl_sdr_blog.Common.{
  Bool, Option, false, if◌then◌else◌, leb, ltb, none, not, some, true, ℕ, ◌&&◌, ◌+◌, ◌-◌, ◌==◌, ◌^◌,
}
use rtl_sdr_blog.Common.Word.{nonzero, u32}
use rtl_sdr_blog.State.{
  Dev, Host, M, TunerType, fail, get, modify, no_result, pure, tuner_r820t, tuner_r828d, when,
  ◌>>=◌, ◌>>◌,
}
use rtl_sdr_blog.Usb.{check_dongle_model, demod_write_reg, set_i2c_repeater}
use rtl_sdr_blog.Device.Codes.{Code, attempt, is_zero, one, return_code, ◌|=◌}
use rtl_sdr_blog.Device.Doubles.{Doubles}
use rtl_sdr_blog.Device.Clock.{set_if_freq}

abbrev pub r82xx_if_freq : ℕ
r82xx_if_freq = 3570000

-- The entries of `rtlsdr_tuner_iface_t` that tuning needs; `none` is a null pointer.
pub record Core : Type 0 where
  pub init : Option (M (Unit {0}))
  pub exit : Option (M (Unit {0}))
  pub set_freq : Option (ℕ → M (Unit {0}))

abbrev pub is_r820t : TunerType → Bool
is_r820t tuner_r820t = true
is_r820t t = false

abbrev pub is_rafael : TunerType → Bool
is_rafael tuner_r820t = true
is_rafael tuner_r828d = true
is_rafael t = false

-- Whether the Q branch is to be sampled directly: the choice where no mode is forced.
unfoldable pub wants_direct : Dev → ℕ → ℕ
unfolding check_dongle_model
wants_direct d freq =
    if ltb freq 24000000
      && is_r820t d.tuner_type
      && not (check_dongle_model d "RTLSDRBlog" "Blog V4L")
    then 2
    else 0

module _ (host : Host) (doubles : Doubles) (core : Core) where
  -- A call to the tuner with the I2C repeater on; a null pointer is not called.
  unfoldable pub with_repeater : Option (M (Unit {0})) → M (Unit {0})
  with_repeater none = pure tt
  with_repeater (some m) = do
    set_i2c_repeater host true
    r ← attempt m
    set_i2c_repeater host false
    return_code r

  -- `r` is -1 where there is nothing to tune.
  unfoldable pub tune_with : Option (ℕ → M (Unit {0})) → ℕ → M (Unit {0})
  tune_with none freq = fail 0
  tune_with (some f) freq = do set_i2c_repeater host true; f freq

  unfoldable pub tune : ℕ → M (Unit {0})
  tune freq = do
    d ← get
    if nonzero d.direct_sampling
        then (do set_i2c_repeater host false; set_if_freq doubles host freq)
        else tune_with core.set_freq (u32 (freq + 2 ^ 32 - d.offs_freq))

  unfoldable pub direct_writes : ℕ → M (Unit {0})
  direct_writes on =
      demod_write_reg host 1 0xb1 0x1a 1
      |= demod_write_reg host 1 0x15 0x00 1
      |= demod_write_reg host 0 0x08 0x4d 1
      |= demod_write_reg host 0 0x06 (if ltb 1 on && ltb on (2 ^ 31) then 0x90 else 0x80) 1

  unfoldable pub tuner_writes : TunerType → M (Unit {0})
  tuner_writes type =
      (if is_rafael type
        then set_if_freq doubles host r82xx_if_freq |= demod_write_reg host 1 0x15 0x01 1
        else set_if_freq doubles host 0
          |= demod_write_reg host 0 0x08 0xcd 1
          |= demod_write_reg host 1 0xb1 0x1b 1)
      |= demod_write_reg host 0 0x06 0x80 1

  -- The two branches up to `dev->direct_sampling`.
  unfoldable pub switch_calls : ℕ → M (Unit {0})
  switch_calls on =
      if nonzero on
      then with_repeater core.exit |= direct_writes on
      else with_repeater core.init |= (do d ← get; tuner_writes d.tuner_type)

  unfoldable pub switch_sampling : ℕ → M (Unit {0})
  switch_sampling on = do
    r ← attempt (switch_calls on)
    modify (λ d. record d { direct_sampling = on })
    return_code r

  module _ (again : ℕ → M (Unit {0})) where
    -- `_rtlsdr_set_direct_sampling`, with the call of `rtlsdr_set_center_freq` that ends it.
    unfoldable pub direct_sampling_then : ℕ → M (Unit {0})
    direct_sampling_then on = switch_sampling on |= (do d ← get; again d.freq)

    -- What follows the tuning, where `last_ds` is the sampling mode before it.
    unfoldable pub retune : ℕ → ℕ → Code → M (Unit {0})
    retune last_ds freq r = do
      modify (λ d. record d { freq = if is_zero r then freq else 0 })
      d ← get
      if last_ds == d.direct_sampling then return_code r else direct_sampling_then d.direct_sampling

    -- `rtlsdr_set_center_freq`: a sampling mode that is negative as an `int` is an early return.
    -- `again` is the call of itself that `_rtlsdr_set_direct_sampling` makes.
    unfoldable pub center_freq_then : ℕ → M (Unit {0})
    center_freq_then freq = do
      last ← get
      when (leb (2 ^ 31) last.direct_sampling) (fail one)
      when (last.direct_sampling_mode == 0)
          (modify (λ d. record d { direct_sampling = wants_direct d freq }))
      r ← attempt (tune freq)
      retune last.direct_sampling freq r

  -- Three calls deep, which is enough.
  unfoldable pub set_center_freq : ℕ → M (Unit {0})
  set_center_freq = center_freq_then (center_freq_then (center_freq_then (λ freq. no_result)))

  unfoldable pub set_direct_sampling : ℕ → M (Unit {0})
  set_direct_sampling on = do
    modify (λ d. record d { direct_sampling_mode = on })
    direct_sampling_then set_center_freq on
