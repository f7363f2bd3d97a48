-- ===== src/Device/Tuner.antt =====
-- src/librtlsdr.c: the function table of a tuner, and the one of the R820T and R828D.
use rtl_sdr_blog.Common.{Bool, Option, false, if◌then◌else◌, none, some, true, ℕ}
use rtl_sdr_blog.Common.Int.{pos, ℤ}
use rtl_sdr_blog.State.{
  Dev, Host, M, R82xx, TunerType, chip_r820t, chip_r828d, get, modify_r82xx, tuner_r828d, ◌>>=◌,
  ◌>>◌,
}
use rtl_sdr_blog.Usb.Frame.{Stays-bind, Stays-get, Stays-modify_r82xx, Stays-then}
use rtl_sdr_blog.R82xx.Init.{standby, init as r82xx_init}
use rtl_sdr_blog.R82xx.Tune.{set_freq as r82xx_set_freq}
use rtl_sdr_blog.R82xx.Bandwidth.{set_bandwidth}
use rtl_sdr_blog.R82xx.Gain.{set_gain as r82xx_set_gain}
use rtl_sdr_blog.R82xx.Frame.{Stays-init, Stays-set_freq, Stays-standby}
use rtl_sdr_blog.Device.Doubles.{Doubles}
use rtl_sdr_blog.Device.Clock.{set_if_freq, tuner_clock}
use rtl_sdr_blog.Device.Center.{Core, set_center_freq}
use rtl_sdr_blog.Device.Center.Frame.{LeavesDevice}

-- `rtlsdr_tuner_iface_t`; `none` is a null pointer.
pub record Tuner : Type 0 where
  pub core : Core
  pub set_bw : Option (ℤ → M (Unit {0}))
  pub set_gain : Option (ℤ → M (Unit {0}))
  pub set_if_gain : Option (ℤ → ℤ → M (Unit {0}))
  pub set_gain_mode : Option (Bool → M (Unit {0}))

-- The entry of an unknown tuner.
abbrev pub no_tuner : Tuner
no_tuner = record {
  core = record { init = none; exit = none; set_freq = none };
  set_bw = none;
  set_gain = none;
  set_if_gain = none;
  set_gain_mode = none;
}

abbrev pub is_r828d : TunerType → Bool
is_r828d tuner_r828d = true
is_r828d t = false

module _ (doubles : Doubles) where
  -- `devt->r82xx_c` as it is set before the tuner is initialised.
  abbrev pub r820t_config : Dev → R82xx → R82xx
  r820t_config d q = record q {
    i2c_addr = if is_r828d d.tuner_type then 0x74 else 0x34;
    rafael_chip = if is_r828d d.tuner_type then chip_r828d else chip_r820t;
    xtal = tuner_clock doubles d;
    max_i2c_msg_len = 8;
    use_predetect = false;
  }

  module _ (host : Host) where
    unfoldable pub r820t_init : M (Unit {0})
    r820t_init = do d ← get; modify_r82xx (r820t_config d); r82xx_init host

    unfoldable pub r820t_exit : M (Unit {0})
    r820t_exit = standby host

    unfoldable pub r820t_set_freq : ℕ → M (Unit {0})
    r820t_set_freq freq = r82xx_set_freq host freq

    abbrev pub r820t_core : Core
    r820t_core = record {
      init = some r820t_init;
      exit = some r820t_exit;
      set_freq = some r820t_set_freq;
    }

    unfoldable pub r820t_set_bw : ℤ → M (Unit {0})
    r820t_set_bw bw = do
      if_freq ← set_bandwidth host bw
      set_if_freq doubles host if_freq
      d ← get
      set_center_freq host doubles r820t_core d.freq

    unfoldable pub r820t_set_gain : ℤ → M (Unit {0})
    r820t_set_gain gain = r82xx_set_gain host true gain

    unfoldable pub r820t_set_gain_mode : Bool → M (Unit {0})
    r820t_set_gain_mode manual = r82xx_set_gain host manual (pos 0)

    abbrev pub r820t : Tuner
    r820t = record {
      core = r820t_core;
      set_bw = some r820t_set_bw;
      set_gain = some r820t_set_gain;
      set_if_gain = none;
      set_gain_mode = some r820t_set_gain_mode;
    }

    pub r820t_core-LeavesDevice : LeavesDevice r820t_core
    unfolding r820t_init r820t_exit r820t_set_freq
    r820t_core-LeavesDevice = record {
      init = λ P apart.
          Stays-bind Stays-get λ d. Stays-then (Stays-modify_r82xx apart _) (Stays-init apart host);
      exit = λ P apart. Stays-standby apart host;
      set_freq = λ P apart freq. Stays-set_freq apart host freq;
    }
