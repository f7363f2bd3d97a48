-- ===== src/State.antt =====
-- The state behind a `rtlsdr_dev_t`: the device record of src/librtlsdr.c, the tuner records that
-- it holds, and the control transfers made so far. libusb and the dongle answer a transfer by an
-- unknown function of what was sent before it: `Host`, a parameter of all that talks to the USB.
use rtl_sdr_blog.Common.{Bool, List, Option, false, none, some, true, ℕ}
use rtl_sdr_blog.Common.Int.{ℤ}
use Prim.Native.String.{String}

pub data Direction : Type 0 where
  ctrl_in ctrl_out : Direction

-- One call of `libusb_control_transfer`: wValue, wIndex, the bytes sent and the length asked for.
pub record Transfer : Type 0 where
  pub direction : Direction
  pub value : ℕ
  pub index : ℕ
  pub bytes : List ℕ
  pub len : ℕ

-- What the call returns: the count of bytes transferred, with the bytes read, or a negative number
-- (`failed n` is -(n + 1)).
pub data Reply : Type 0 where
  done : ℕ → (ℕ → ℕ) → Reply
  failed : ℕ → Reply

pub record Entry : Type 0 where
  pub transfer : Transfer
  pub reply : Reply

-- The history stands newest first.
abbrev pub Log : Type 0
Log = List Entry

-- The answer to the next transfer, and the bytes that an uninitialised buffer holds at that time.
pub record Host : Type 0 where
  pub answer : Log → Transfer → Reply
  pub junk : Log → ℕ → ℕ

pub data Chip : Type 0 where
  chip_r820t chip_r620d chip_r828d chip_r828 chip_r828s chip_r820c : Chip

-- `enum r82xx_tuner_type`, with a constructor for the values that are none of its own.
pub data TvType : Type 0 where
  tuner_none tuner_radio tuner_analog_tv tuner_digital_tv : TvType

pub data XtalCap : Type 0 where
  low_cap_30p low_cap_20p low_cap_10p low_cap_0p high_cap_0p : XtalCap

-- `struct r82xx_config` and `struct r82xx_priv`, less the scratch buffer and the fields that the
-- driver never reads or writes (pll, rf_freq).
pub record R82xx : Type 0 where
  pub i2c_addr : ℕ
  pub xtal : ℕ
  pub rafael_chip : Chip
  pub max_i2c_msg_len : ℕ
  pub use_predetect : Bool
  pub regs : List ℕ
  pub xtal_cap_sel : XtalCap
  pub int_freq : ℕ
  pub fil_cal_code : ℕ
  pub input : ℕ
  pub has_lock : Bool
  pub init_done : Bool
  pub delsys : ℕ
  pub tv_type : TvType
  pub bw : ℕ

-- `struct e4k_pll_params`.
pub record PllParams : Type 0 where
  pub fosc : ℕ
  pub intended_flo : ℕ
  pub flo : ℕ
  pub x : ℕ
  pub z : ℕ
  pub r : ℕ
  pub r_idx : ℕ
  pub threephase : Bool

-- `enum e4k_band`.
pub data Band : Type 0 where
  vhf2 vhf3 uhf band_l : Band

-- `struct e4k_state`, less the pointers.
pub record E4k : Type 0 where
  pub i2c_addr : ℕ
  pub band : Band
  pub vco : PllParams

-- `enum rtlsdr_tuner`.
pub data TunerType : Type 0 where
  tuner_unknown tuner_e4000 tuner_fc0012 tuner_fc0013 : TunerType
  tuner_fc2580 tuner_r820t tuner_r828d : TunerType

-- `struct rtlsdr_dev`, less the handles and buffers of libusb.
pub record Dev : Type 0 where
  pub log : Log
  pub rate : ℕ
  pub rtl_xtal : ℕ
  pub fir : List ℤ
  pub direct_sampling : ℕ
  pub direct_sampling_mode : ℕ
  pub tuner_type : TunerType
  pub tun_xtal : ℕ
  pub freq : ℕ
  pub bw : ℕ
  pub offs_freq : ℕ
  pub corr : ℤ
  pub gain : ℤ
  pub e4k : E4k
  pub r82xx : R82xx
  pub manufact : String
  pub product : String
  pub force_bt : Bool

-- How a call ends, with the state that it leaves: with a return value that is no error, with the
-- error code -(n + 1), or in behaviour that C leaves undefined (an access out of range, a division
-- by zero) or that never returns.
pub data Res (A : Type 0) : Type 0 where
  ok : A → Dev → Res A
  err : ℕ → Dev → Res A
  fault : Res A

abbrev pub M : Type 0 → Type 0
M A = Dev → Res A

abbrev pub pure : {A : Type 0} → A → M A
pure a d = ok a d

-- `return -(n + 1)`.
abbrev pub fail : {A : Type 0} → ℕ → M A
fail n d = err n d

-- `rc = m; if (rc < 0) return rc;` and then `f`.
infixl 5 ◌>>=◌ ◌>>◌
abbrev pub ◌>>=◌ : {A B : Type 0} → M A → (A → M B) → M B
◌>>=◌ m f d = elim (m d) [ ok a e ↦ f a e | err n e ↦ err n e | fault ↦ fault ]

abbrev pub ◌>>◌ : {B : Type 0} → M (Unit {0}) → M B → M B
m >> k = m >>= λ _. k

-- A call whose return value is not looked at. What C leaves undefined stays so.
abbrev pub ignore : {A : Type 0} → M A → M (Unit {0})
ignore m d = elim (m d) [ ok a e ↦ ok tt e | err n e ↦ ok tt e | fault ↦ fault ]

-- What C leaves undefined, or a loop that goes on for ever.
abbrev pub no_result : {A : Type 0} → M A
no_result d = fault

abbrev pub or_stuck : {A : Type 0} → Option A → M A
or_stuck none = no_result
or_stuck (some a) = pure a

unfoldable pub get : M Dev
get d = ok d d

unfoldable pub modify : (Dev → Dev) → M (Unit {0})
modify f d = ok tt (f d)

unfoldable pub get_r82xx : M R82xx
get_r82xx d = ok d.r82xx d

unfoldable pub modify_r82xx : (R82xx → R82xx) → M (Unit {0})
modify_r82xx f d = ok tt (record d { r82xx = f d.r82xx })

-- `if (b) m`.
abbrev pub when : Bool → M (Unit {0}) → M (Unit {0})
when b m d = elim b [ true ↦ m d | false ↦ ok tt d ]

-- A change of the tuner's record that follows a call whether it failed or not; the call's return
-- value is the result.
abbrev pub finally_r82xx : (R82xx → R82xx) → M (Unit {0}) → M (Unit {0})
finally_r82xx f m d = elim (m d) [
  | ok a e ↦ ok a (record e { r82xx = f e.r82xx })
  | err n e ↦ err n (record e { r82xx = f e.r82xx })
  | fault ↦ fault
]

unfoldable pub modify_e4k : (E4k → E4k) → M (Unit {0})
modify_e4k f d = ok tt (record d { e4k = f d.e4k })

-- Any error is -1.
abbrev pub or_minus_one : {A : Type 0} → M A → M A
or_minus_one m d = elim (m d) [ ok a e ↦ ok a e | err n e ↦ err 0 e | fault ↦ fault ]

-- A call whose error is not looked at, where the value is then `v`.
abbrev pub or_value : ℕ → M ℕ → M ℕ
or_value v m d = elim (m d) [ ok a e ↦ ok a e | err n e ↦ ok v e | fault ↦ fault ]
