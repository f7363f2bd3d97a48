-- ===== src/E4k/Iface.antt =====
-- src/librtlsdr.c: the function table's entry for the E4000.
use rtl_sdr_blog.Common.{Bool, if◌then◌else◌, ltb, set, some, true, ℕ, ◌%◌, ◌-◌, ◌==◌, ◌^◌}
use rtl_sdr_blog.Common.Int.{ltb_ℤ, negsuc, pos, same_ℤ, ℤ, ◌*ℤ◌, ◌-ℤ◌}
use rtl_sdr_blog.Common.Cint.{int32, quot}
use rtl_sdr_blog.Common.Word.{u32, u8}
use rtl_sdr_blog.State.{Host, M, fail, get, modify_e4k, or_stuck, pure, when, ◌>>=◌, ◌>>◌}
use rtl_sdr_blog.Device.Codes.{attempt, minus, zero_code, ◌|=◌}
use rtl_sdr_blog.Device.Doubles.{Doubles}
use rtl_sdr_blog.Device.Clock.{tuner_clock}
use rtl_sdr_blog.Device.Tuner.{Tuner}
use rtl_sdr_blog.E4k.Filter.{chan, if_filter_bw_set, mix, rc}
use rtl_sdr_blog.E4k.Pll.{tune_freq}
use rtl_sdr_blog.E4k.Gain.{
  enable_manual_gain, if_gain_set, minus_einval, mixer_gain_set, set_lna_gain,
}
use rtl_sdr_blog.E4k.Init.{e4k_init, e4k_standby}

abbrev pub e4k_i2c_addr : ℕ
e4k_i2c_addr = 0xc8

-- An `int` as an `uint32_t`.
abbrev pub unsigned32 : ℤ → ℕ
unsigned32 (pos n) = u32 n
unsigned32 (negsuc n) = 2 ^ 32 - 1 - n % 2 ^ 32

-- The 8 bits of an `int` as an `int8_t`.
abbrev pub i8 : ℤ → ℤ
i8 (pos n) = if ltb (n % 2 ^ 8) (2 ^ 7) then pos (n % 2 ^ 8) else negsuc (2 ^ 8 - 1 - n % 2 ^ 8)
i8 (negsuc n) = if ltb (n % 2 ^ 8) (2 ^ 7) then negsuc (n % 2 ^ 8) else pos (2 ^ 8 - 1 - n % 2 ^ 8)

abbrev pub min_ℤ : ℤ → ℤ → ℤ
min_ℤ a b = if ltb_ℤ a b then a else b

abbrev pub mixgain_for : ℤ → ℤ
mixgain_for gain = if ltb_ℤ (pos 340) gain then pos 12 else pos 4

module _ (doubles : Doubles) (host : Host) where
  unfoldable pub e4000_init : M (Unit {0})
  e4000_init = do
    d ← get
    modify_e4k (λ k. record k {
      i2c_addr = e4k_i2c_addr;
      vco = record k.vco { fosc = tuner_clock doubles d };
    })
    e4k_init host

  unfoldable pub e4000_exit : M (Unit {0})
  e4000_exit = e4k_standby host true

  unfoldable pub e4000_set_freq : ℕ → M (Unit {0})
  e4000_set_freq freq = tune_freq host freq

  unfoldable pub e4000_set_bw : ℤ → M (Unit {0})
  e4000_set_bw bw =
      if_filter_bw_set host mix (unsigned32 bw)
      |= if_filter_bw_set host rc (unsigned32 bw)
      |= if_filter_bw_set host chan (unsigned32 bw)

  -- `if (f() == -EINVAL) return -1;`, where a call's -1 is no error. A difference that is not an
  -- `int` is undefined behaviour.
  unfoldable pub e4000_set_gain : ℤ → M (Unit {0})
  e4000_set_gain gain = do
    lna ← or_stuck (int32 (gain -ℤ mixgain_for gain *ℤ pos 10))
    set ← set_lna_gain host (min_ℤ (pos 300) lna)
    when (same_ℤ set minus_einval) (fail 0)
    r ← attempt (mixer_gain_set host (mixgain_for gain))
    elim r [ zero_code ↦ pure tt | minus n ↦ when (n == 21) (fail 0) ]

  unfoldable pub e4000_set_if_gain : ℤ → ℤ → M (Unit {0})
  e4000_set_if_gain stage gain = if_gain_set host (u8 (unsigned32 stage)) (i8 (quot gain (pos 10)))

  unfoldable pub e4000_set_gain_mode : Bool → M (Unit {0})
  e4000_set_gain_mode manual = enable_manual_gain host manual

  -- The entry of `tuners` for the E4000.
  abbrev pub e4000 : Tuner
  e4000 = record {
    core = record {
      init = some e4000_init;
      exit = some e4000_exit;
      set_freq = some e4000_set_freq;
    };
    set_bw = some e4000_set_bw;
    set_gain = some e4000_set_gain;
    set_if_gain = some e4000_set_if_gain;
    set_gain_mode = some e4000_set_gain_mode;
  }
