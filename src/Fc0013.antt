-- ===== src/Fc0013.antt =====
-- src/tuner_fc0013.c: the driver of the FC0013, whose PLL is that of the FC0012.
pub mod Pll
mod Tests
use rtl_sdr_blog.Common.{
  Bool, List, [], bit_and, bit_or, if◌then◌else◌, leb, ltb, none, some, ℕ, ◌*◌, ◌+◌, ◌/◌, ◌==◌, ◌^◌,
  ◌||◌, ◌∷◌,
}
use rtl_sdr_blog.Common.Int.{negsuc, pos, ℤ}
use rtl_sdr_blog.Common.Word.{u32}
use rtl_sdr_blog.State.{
  Host, M, err, fail, fault, get, no_result, ok, or_minus_one, pure, when, ◌>>=◌, ◌>>◌,
}
use rtl_sdr_blog.Usb.{byte_or, i2c_read, i2c_write, status}
use rtl_sdr_blog.R82xx.Gain.{leb_ℤ, set_gain}
use rtl_sdr_blog.Device.Codes.{Code, minus, return_code, zero_code, ◌|=◌}
use rtl_sdr_blog.Device.Doubles.{Doubles}
use rtl_sdr_blog.Device.Clock.{tuner_clock}
use rtl_sdr_blog.Device.Tuner.{Tuner}
use rtl_sdr_blog.Fc0012.{
  Divider, am_pm, bandwidth_bits, divider, fraction, limited, rounded, vco_bit,
}

abbrev pub fc0013_i2c_addr : ℕ
fc0013_i2c_addr = 0xc6

-- Registers 1 to 0x15, with the changes that `fc0013_init` makes to 7 and 0x0c.
abbrev pub fc0013_init_regs : List ℕ
fc0013_init_regs =
    0x09
    ∷ 0x16
    ∷ 0x00
    ∷ 0x00
    ∷ 0x17
    ∷ 0x02
    ∷ bit_or 0x0a 0x20
    ∷ 0xff
    ∷ 0x6e
    ∷ 0xb8
    ∷ 0x82
    ∷ bit_or 0xfc 0x02
    ∷ 0x01
    ∷ 0x00
    ∷ 0x00
    ∷ 0x00
    ∷ 0x00
    ∷ 0x00
    ∷ 0x00
    ∷ 0x50
    ∷ 0x01
    ∷ []

unfoldable pub fc0013_divider : ℕ → Divider
fc0013_divider freq =
    if ltb freq 37084000
    then divider 96 0x82 0x00
    else if ltb freq 55625000
    then divider 64 0x02 0x02
    else if ltb freq 74167000
    then divider 48 0x42 0x00
    else if ltb freq 111250000
    then divider 32 0x82 0x02
    else if ltb freq 148334000
    then divider 24 0x22 0x00
    else if ltb freq 222500000
    then divider 16 0x42 0x02
    else if ltb freq 296667000
    then divider 12 0x12 0x00
    else if ltb freq 445000000
    then divider 8 0x22 0x02
    else if ltb freq 593334000
    then divider 6 0x0a 0x00
    else if ltb freq 950000000
    then divider 4 0x12 0x02
    else divider 2 0x0a 0x02

-- The product of two 32-bit numbers, which is one of 32 bits.
unfoldable pub fc0013_vco_freq : ℕ → ℕ
fc0013_vco_freq freq = u32 (freq * (fc0013_divider freq).multi)

unfoldable pub fc0013_reg6 : ℕ → ℕ → ℕ
fc0013_reg6 freq bandwidth =
    let vco_select = leb 3060000000 (fc0013_vco_freq freq) in
    bit_or (bit_and (bit_or (bit_or (fc0013_divider freq).reg6 (vco_bit vco_select)) 0x20) 0x3f)
      (bandwidth_bits bandwidth)

unfoldable pub vhf_track : ℕ → ℕ
vhf_track freq =
    if leb freq 177500000
    then 0x1c
    else if leb freq 184500000
    then 0x18
    else if leb freq 191500000
    then 0x14
    else if leb freq 198500000
    then 0x10
    else if leb freq 205500000
    then 0x0c
    else if leb freq 219500000
    then 0x08
    else if ltb freq 300000000
    then 0x04
    else 0x1c

-- Gains in tenths of a dB, and the bits that set them.
abbrev pub fc0013_lna_gains : List (ℤ × ℕ)
fc0013_lna_gains =
    (negsuc 98, 0x02)
    ∷ (negsuc 72, 0x03)
    ∷ (negsuc 64, 0x05)
    ∷ (negsuc 62, 0x04)
    ∷ (negsuc 62, 0x00)
    ∷ (negsuc 59, 0x07)
    ∷ (negsuc 57, 0x01)
    ∷ (negsuc 53, 0x06)
    ∷ (pos 58, 0x0f)
    ∷ (pos 61, 0x0e)
    ∷ (pos 63, 0x0d)
    ∷ (pos 65, 0x0c)
    ∷ (pos 67, 0x0b)
    ∷ (pos 68, 0x0a)
    ∷ (pos 70, 0x09)
    ∷ (pos 71, 0x08)
    ∷ (pos 179, 0x17)
    ∷ (pos 181, 0x16)
    ∷ (pos 182, 0x15)
    ∷ (pos 184, 0x14)
    ∷ (pos 186, 0x13)
    ∷ (pos 188, 0x12)
    ∷ (pos 191, 0x11)
    ∷ (pos 197, 0x10)
    ∷ []

-- The first entry that is not below the gain, or the last one.
unfoldable pub lna_bits : ℤ → List (ℤ × ℕ) → ℕ
lna_bits gain [] = 0
lna_bits gain ((g, bits) ∷ []) = bits
lna_bits gain ((g, bits) ∷ e ∷ more) =
    let rest = lna_bits gain (e ∷ more) in if leb_ℤ gain g then bits else rest

-- A call of which the return value and the byte are kept; without a byte it stays 0.
abbrev pub attempt_byte : M ℕ → M (Code × ℕ)
attempt_byte m d = elim (m d) [
  | ok a e ↦ ok (zero_code, a) e
  | err n e ↦ ok (minus n, 0) e
  | fault ↦ fault
]

module _ (host : Host) where
  unfoldable pub fc0013_writereg : ℕ → ℕ → M (Unit {0})
  fc0013_writereg reg val =
      or_minus_one (do n ← i2c_write host fc0013_i2c_addr (reg ∷ val ∷ []); pure tt)

  -- Where no byte comes, the value is the register's number that was sent.
  unfoldable pub fc0013_readreg : ℕ → M ℕ
  fc0013_readreg reg = or_minus_one (do
    n ← i2c_write host fc0013_i2c_addr (reg ∷ [])
    r ← i2c_read host fc0013_i2c_addr 1
    k ← status r
    pure (byte_or r 0 reg))

  unfoldable pub fc0013_write_from : ℕ → List ℕ → M (Unit {0})
  fc0013_write_from reg [] = pure tt
  fc0013_write_from reg (val ∷ vals) = do fc0013_writereg reg val; fc0013_write_from (reg + 1) vals

  unfoldable pub fc0013_init : M (Unit {0})
  fc0013_init = fc0013_write_from 1 fc0013_init_regs

  -- A register that is read and written back.
  unfoldable pub change_reg : ℕ → (ℕ → ℕ) → M (Unit {0})
  change_reg reg f = do tmp ← fc0013_readreg reg; fc0013_writereg reg (f tmp)

  unfoldable pub set_vhf_track : ℕ → M (Unit {0})
  set_vhf_track freq = change_reg 0x1d (λ tmp. bit_or (bit_and tmp 0xe3) (vhf_track freq))

  -- The two branches from 300 MHz on are the same.
  unfoldable pub select_band : ℕ → M (Unit {0})
  select_band freq =
      if ltb freq 300000000
      then (do change_reg 0x07 (λ tmp. bit_or tmp 0x10); change_reg 0x14 (λ tmp. bit_and tmp 0x1f))
      else (do
        change_reg 0x07 (λ tmp. bit_and tmp 0xef)
        change_reg 0x14 (λ tmp. bit_or (bit_and tmp 0x1f) 0x40))

  unfoldable pub fc0013_reselect : ℕ → M (Unit {0})
  fc0013_reselect reg6 = do
    fc0013_writereg 0x06 reg6
    fc0013_writereg 0x0e 0x80
    fc0013_writereg 0x0e 0x00

  unfoldable pub fc0013_check_vco : Bool → ℕ → ℕ → M (Unit {0})
  fc0013_check_vco vco_select reg6 tmp =
      if vco_select
      then when (ltb 0x3c tmp) (fc0013_reselect (bit_and reg6 0xf7))
      else when (ltb tmp 0x02) (fc0013_reselect (bit_or reg6 0x08))

  unfoldable pub fc0013_program : List ℕ → ℕ → Bool → ℕ → M (Unit {0})
  fc0013_program regs multi vco_select reg6 = do
    fc0013_write_from 1 regs
    change_reg 0x11 (λ tmp. if multi == 64 then bit_or tmp 0x04 else bit_and tmp 0xfb)
    fc0013_writereg 0x0e 0x80
    fc0013_writereg 0x0e 0x00
    fc0013_writereg 0x0e 0x00
    tmp ← fc0013_readreg 0x0e
    fc0013_check_vco vco_select reg6 (bit_and tmp 0x3f)

  unfoldable pub fc0013_set_params : Doubles → ℕ → ℕ → M (Unit {0})
  fc0013_set_params doubles freq bandwidth = do
    d ← get
    let half_xtal = tuner_clock doubles d / 2
    set_vhf_track freq
    select_band freq
    when (half_xtal == 0) no_result
    let f_vco = fc0013_vco_freq freq
    let regs = limited (am_pm (rounded f_vco half_xtal))
    let reg6 = fc0013_reg6 freq bandwidth
    let xin = fraction f_vco half_xtal
    if ltb 15 regs.0 || ltb regs.1 0x0b
        then fail 0
        else if half_xtal / 1000 == 0
        then no_result
        else fc0013_program
            (regs.0
              ∷ regs.1
              ∷ xin / 2 ^ 8
              ∷ bit_and xin 0xff
              ∷ bit_or (fc0013_divider freq).reg5 0x07
              ∷ reg6
              ∷ [])
            (fc0013_divider freq).multi (leb 3060000000 f_vco) reg6

  unfoldable pub fc0013_set_gain_mode : Bool → M (Unit {0})
  fc0013_set_gain_mode manual = do
    r ← attempt_byte (fc0013_readreg 0x0d)
    (return_code r.0
        |= fc0013_writereg 0x0d (if manual then bit_or r.1 0x08 else bit_and r.1 0xf7)
        |= fc0013_writereg 0x13 0x0a)

  unfoldable pub fc0013_set_lna_gain : ℤ → M (Unit {0})
  fc0013_set_lna_gain gain = do
    r ← attempt_byte (fc0013_readreg 0x14)
    (return_code r.0
        |= fc0013_writereg 0x14 (bit_or (bit_and r.1 0xe0) (lna_bits gain fc0013_lna_gains)))

  -- The entry of `tuners` for the FC0013.
  abbrev pub fc0013 : Doubles → Tuner
  fc0013 doubles = record {
    core = record {
      init = some fc0013_init;
      exit = some (pure tt);
      set_freq = some (λ freq. fc0013_set_params doubles freq 6000000);
    };
    set_bw = some (λ bw. pure tt);
    set_gain = some fc0013_set_lna_gain;
    set_if_gain = none;
    set_gain_mode = some fc0013_set_gain_mode;
  }
