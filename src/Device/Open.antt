-- ===== src/Device/Open.antt =====
-- src/librtlsdr.c: `rtlsdr_open` once the interface is claimed: the probing of the tuner and what is
-- set for it; `rtlsdr_reset_buffer`.
pub mod Probe
pub mod Calls
mod Tests
use Prim.Native.String.{String}
use rtl_sdr_blog.Common.{
  Bool, List, bit_and, false, get_or, if◌then◌else◌, not, true, ℕ, ◌&&◌, ◌==◌,
}
use rtl_sdr_blog.State.{
  Dev, Host, M, TunerType, get, ignore, modify, ok, pure, tuner_e4000, tuner_fc0012, tuner_fc0013,
  tuner_fc2580, tuner_r820t, tuner_r828d, tuner_unknown, when, ◌>>=◌, ◌>>◌,
}
use rtl_sdr_blog.Usb.{
  check_dongle_model, demod_write_reg, i2c_read_reg, received, set_bias_tee, set_gpio_bit,
  set_gpio_output, set_i2c_repeater, write_reg,
}
use rtl_sdr_blog.Usb.Block.{usbb}
use rtl_sdr_blog.Usb.Reg.{usb_epa_ctl, usb_sysctl}
use rtl_sdr_blog.Demod.Fir.{fir_default}
use rtl_sdr_blog.Demod.Eeprom.{read_eeprom_buf}
use rtl_sdr_blog.Device.Baseband.{init_baseband}
use rtl_sdr_blog.Device.Doubles.{Doubles}
use rtl_sdr_blog.Device.Clock.{set_if_freq}
use rtl_sdr_blog.Device.Center.{is_r820t, r82xx_if_freq, set_direct_sampling}
use rtl_sdr_blog.Device.Control.{def_rtl_xtal_freq}
use rtl_sdr_blog.Device.Tuner.{is_r828d, no_tuner, r820t_init}
use rtl_sdr_blog.E4k.Iface.{e4000_init, e4k_i2c_addr}
use rtl_sdr_blog.Fc0012.{fc0012_i2c_addr, fc0012_init}
use rtl_sdr_blog.Fc0013.{fc0013_i2c_addr, fc0013_init}
use rtl_sdr_blog.Fc2580.{fc2580_i2c_addr, initialize}

abbrev pub r820t_i2c_addr : ℕ
r820t_i2c_addr = 0x34

abbrev pub r828d_i2c_addr : ℕ
r828d_i2c_addr = 0x74

abbrev pub r828d_xtal_freq : ℕ
r828d_xtal_freq = 16000000

module _ (host : Host) where
  -- The tuner's identification, at a register of an I2C address.
  unfoldable pub checks : ℕ → ℕ → ℕ → M Bool
  checks i2c_addr reg val = do found ← i2c_read_reg host i2c_addr reg; pure (found == val)

  -- The FC2580's, less its highest bit.
  unfoldable pub checks_fc2580 : M Bool
  checks_fc2580 = do
    found ← i2c_read_reg host fc2580_i2c_addr 0x01
    pure (bit_and found 0x7f == 0x56)

  -- What is probed after a reset of the tuner by GPIO 4.
  unfoldable pub probe_late : M TunerType
  probe_late = do
    set_gpio_output host 4
    set_gpio_bit host 4 true
    set_gpio_bit host 4 false
    is_fc2580 ← checks_fc2580
    if is_fc2580 then pure tuner_fc2580 else (do
      is_fc0012 ← checks fc0012_i2c_addr 0x00 0xa1
      if is_fc0012 then (do set_gpio_output host 6; pure tuner_fc0012) else pure tuner_unknown)

  unfoldable pub probe : M TunerType
  probe = do
    is_e4000 ← checks e4k_i2c_addr 0x02 0x40
    if is_e4000 then pure tuner_e4000 else (do
      is_fc0013 ← checks fc0013_i2c_addr 0x00 0xa3
      if is_fc0013 then pure tuner_fc0013 else (do
        is_r820t ← checks r820t_i2c_addr 0x00 0x69
        if is_r820t then pure tuner_r820t else (do
          is_r828d ← checks r828d_i2c_addr 0x00 0x69
          if is_r828d then pure tuner_r828d else probe_late)))

  -- A buffer that nothing has written.
  unfoldable pub uninitialised : ℕ → M (List ℕ)
  uninitialised n d = ok (received n 0 (host.junk d.log)) d

  module _ (doubles : Doubles) where
    -- The `init` of the function table. That of the FC2580 returns 1 for an error, and here no
    -- return value is looked at.
    abbrev pub tuner_init : TunerType → M (Unit {0})
    tuner_init tuner_unknown = pure tt
    tuner_init tuner_e4000 = e4000_init doubles host
    tuner_init tuner_fc0012 = fc0012_init host
    tuner_init tuner_fc0013 = fc0013_init host
    tuner_init tuner_fc2580 = do good ← initialize host; pure tt
    tuner_init tuner_r820t = r820t_init doubles host
    tuner_init tuner_r828d = r820t_init doubles host

    abbrev pub is_blog_v4 : Dev → Bool
    is_blog_v4 d = check_dongle_model d "RTLSDRBlog" "Blog V4"

    -- The crystal of the tuner: the R828D has its own but on a Blog V4.
    abbrev pub tun_xtal_for : TunerType → Dev → ℕ
    tun_xtal_for t d = if is_r828d t && not (is_blog_v4 d) then r828d_xtal_freq else d.rtl_xtal

    unfoldable pub rafael_writes : M (Unit {0})
    rafael_writes = do
      ignore (demod_write_reg host 1 0xb1 0x1a 1)
      ignore (demod_write_reg host 0 0x08 0x4d 1)
      ignore (set_if_freq doubles host r82xx_if_freq)
      ignore (demod_write_reg host 1 0x15 0x01 1)

    unfoldable pub prepare : TunerType → M (Unit {0})
    prepare tuner_r828d = rafael_writes
    prepare tuner_r820t = rafael_writes
    prepare tuner_unknown = ignore (set_direct_sampling host doubles no_tuner.core 1)
    prepare tuner_e4000 = pure tt
    prepare tuner_fc0012 = pure tt
    prepare tuner_fc0013 = pure tt
    prepare tuner_fc2580 = pure tt

    -- A bit of byte 7 of the EEPROM switches the bias tee on for good.
    unfoldable pub force_bias_tee : M (Unit {0})
    force_bias_tee = do
      junk_buf ← uninitialised 256
      buf ← read_eeprom_buf host junk_buf
      modify (λ d. record d { force_bt = bit_and (get_or buf 7 0) 0x02 == 0 })
      d ← get
      when d.force_bt (set_bias_tee host true)

    -- From `found:` on.
    unfoldable pub start_tuner : TunerType → M (Unit {0})
    start_tuner t = do
      modify (λ d. record d { tuner_type = t; tun_xtal = tun_xtal_for t d })
      prepare t
      force_bias_tee
      ignore (tuner_init t)
      set_i2c_repeater host false

    -- `manufact` and `product` are what libusb reads of the device.
    unfoldable pub open_claimed : String → String → M (Unit {0})
    open_claimed manufact product = do
      modify (λ d. record d { fir = fir_default; rtl_xtal = def_rtl_xtal_freq })
      ignore (write_reg host usbb usb_sysctl 0x09 1)
      init_baseband host
      modify (λ d. record d { manufact = manufact; product = product })
      set_i2c_repeater host true
      t ← probe
      start_tuner t

  unfoldable pub reset_buffer : M (Unit {0})
  reset_buffer = do
    ignore (write_reg host usbb usb_epa_ctl 0x1002 2)
    ignore (write_reg host usbb usb_epa_ctl 0x0000 2)
