-- ===== src/Fc0012.antt =====
-- src/tuner_fc0012.c: the driver of the FC0012.
pub mod Pll
mod Tests
use rtl_sdr_blog.Common.{
  Bool, List, [], bit_and, bit_or, if◌then◌else◌, leb, ltb, none, some, ℕ, ◌*◌, ◌+◌, ◌-◌, ◌/◌, ◌==◌,
  ◌^◌, ◌||◌, ◌∷◌,
}
use rtl_sdr_blog.Common.Int.{negsuc, pos, same_ℤ, ℤ}
use rtl_sdr_blog.Common.Word.{u16, u32, u8}
use rtl_sdr_blog.State.{
  Host, M, fail, get, no_result, or_minus_one, or_value, pure, when, ◌>>=◌, ◌>>◌,
}
use rtl_sdr_blog.Usb.{byte_or, i2c_read, i2c_write, set_gpio_bit, status}
use rtl_sdr_blog.Device.Doubles.{Doubles}
use rtl_sdr_blog.Device.Clock.{tuner_clock}
use rtl_sdr_blog.Device.Tuner.{Tuner}

abbrev pub fc0012_i2c_addr : ℕ
fc0012_i2c_addr = 0xc6

-- Registers 1 to 0x15, with the changes that `fc0012_init` makes to 7 and 0x0c.
abbrev pub init_regs : List ℕ
init_regs =
    0x05
    ∷ 0x10
    ∷ 0x00
    ∷ 0x00
    ∷ 0x0f
    ∷ 0x00
    ∷ bit_or 0x00 0x20
    ∷ 0xff
    ∷ 0x6e
    ∷ 0xb8
    ∷ 0x82
    ∷ bit_or 0xfc 0x02
    ∷ 0x02
    ∷ 0x00
    ∷ 0x00
    ∷ 0x00
    ∷ 0x00
    ∷ 0x1f
    ∷ 0x08
    ∷ 0x00
    ∷ 0x04
    ∷ []

-- The multiplier from the frequency to the VCO, and the first values of registers 5 and 6.
pub record Divider : Type 0 where
  pub multi : ℕ
  pub reg5 : ℕ
  pub reg6 : ℕ

abbrev pub divider : ℕ → ℕ → ℕ → Divider
divider multi reg5 reg6 = record { multi = multi; reg5 = reg5; reg6 = reg6 }

unfoldable pub choose_divider : ℕ → Divider
choose_divider freq =
    if ltb freq 37084000
    then divider 96 0x82 0x00
    else if ltb freq 55625000
    then divider 64 0x82 0x02
    else if ltb freq 74167000
    then divider 48 0x42 0x00
    else if ltb freq 111250000
    then divider 32 0x42 0x02
    else if ltb freq 148334000
    then divider 24 0x22 0x00
    else if ltb freq 222500000
    then divider 16 0x22 0x02
    else if ltb freq 296667000
    then divider 12 0x12 0x00
    else if ltb freq 445000000
    then divider 8 0x12 0x02
    else if ltb freq 593334000
    then divider 6 0x0a 0x00
    else divider 4 0x0a 0x02

-- The product of two 32-bit numbers, which is one of 32 bits.
unfoldable pub vco_freq : ℕ → ℕ
vco_freq freq = u32 (freq * (choose_divider freq).multi)

-- The quotient rounded to the nearest.
unfoldable pub rounded : ℕ → ℕ → ℕ
rounded f_vco half_xtal =
    let xdiv = u16 (f_vco / half_xtal) in
    if leb (half_xtal / 2) (f_vco - u32 (xdiv * half_xtal)) then u16 (xdiv + 1) else xdiv

-- Registers 1 and 2: `am` and `pm`. A `pm` of 0 is made 255 by the decrement.
unfoldable pub am_pm : ℕ → ℕ × ℕ
am_pm xdiv =
    let pm = u8 (xdiv / 8) in
    let am = u8 (xdiv - 8 * pm) in if ltb am 2 then (am + 8, u8 (pm + 255)) else (am, pm)

unfoldable pub limited : ℕ × ℕ → ℕ × ℕ
limited (am, pm) = if ltb 31 pm then (u8 (am + 8 * (pm - 31)), 31) else (am, pm)

-- The fraction, in 16 bits.
unfoldable pub fraction : ℕ → ℕ → ℕ
fraction f_vco half_xtal =
    let xin =
      u16 (u16 ((f_vco - f_vco / half_xtal * half_xtal) / 1000) * 2 ^ 15 / (half_xtal / 1000)) in
    if leb 16384 xin then u16 (xin + 32768) else xin

abbrev pub bandwidth_bits : ℕ → ℕ
bandwidth_bits bandwidth =
    if bandwidth == 6000000 then 0x80 else if bandwidth == 7000000 then 0x40 else 0

abbrev pub vco_bit : Bool → ℕ
vco_bit b = if b then 0x08 else 0

-- Register 6 with its VCO bit, the clock output and the bandwidth.
unfoldable pub final_reg6 : ℕ → ℕ → ℕ
final_reg6 freq bandwidth =
    let vco_select = leb 3060000000 (vco_freq freq) in
    bit_or (bit_and (bit_or (bit_or (choose_divider freq).reg6 (vco_bit vco_select)) 0x20) 0x3f)
      (bandwidth_bits bandwidth)

module _ (host : Host) where
  unfoldable pub fc0012_writereg : ℕ → ℕ → M (Unit {0})
  fc0012_writereg reg val =
      or_minus_one (do n ← i2c_write host fc0012_i2c_addr (reg ∷ val ∷ []); pure tt)

  -- Where no byte comes, the value is the register's number that was sent.
  unfoldable pub fc0012_readreg : ℕ → M ℕ
  fc0012_readreg reg = or_minus_one (do
    n ← i2c_write host fc0012_i2c_addr (reg ∷ [])
    r ← i2c_read host fc0012_i2c_addr 1
    k ← status r
    pure (byte_or r 0 reg))

  unfoldable pub fc0012_write_from : ℕ → List ℕ → M (Unit {0})
  fc0012_write_from reg [] = pure tt
  fc0012_write_from reg (val ∷ vals) = do fc0012_writereg reg val; fc0012_write_from (reg + 1) vals

  unfoldable pub fc0012_init : M (Unit {0})
  fc0012_init = fc0012_write_from 1 init_regs

  -- Register 6 again, with its VCO bit changed, and a new calibration.
  unfoldable pub reselect : ℕ → M (Unit {0})
  reselect reg6 = do fc0012_writereg 0x06 reg6; fc0012_writereg 0x0e 0x80; fc0012_writereg 0x0e 0x00

  unfoldable pub check_vco : Bool → ℕ → ℕ → M (Unit {0})
  check_vco vco_select reg6 tmp =
      if vco_select
      then when (ltb 0x3c tmp) (reselect (bit_and reg6 0xf7))
      else when (ltb tmp 0x02) (reselect (bit_or reg6 0x08))

  unfoldable pub fc0012_program : List ℕ → Bool → ℕ → M (Unit {0})
  fc0012_program regs vco_select reg6 = do
    fc0012_write_from 1 regs
    fc0012_writereg 0x0e 0x80
    fc0012_writereg 0x0e 0x00
    fc0012_writereg 0x0e 0x00
    tmp ← fc0012_readreg 0x0e
    check_vco vco_select reg6 (bit_and tmp 0x3f)

  -- `rtlsdr_get_tuner_clock` gives the corrected clock of the tuner.
  unfoldable pub fc0012_set_params : Doubles → ℕ → ℕ → M (Unit {0})
  fc0012_set_params doubles freq bandwidth = do
    d ← get
    let half_xtal = tuner_clock doubles d / 2
    when (half_xtal == 0) no_result
    let f_vco = vco_freq freq
    let regs = limited (am_pm (rounded f_vco half_xtal))
    let reg6 = final_reg6 freq bandwidth
    let xin = fraction f_vco half_xtal
    if ltb 15 regs.0 || ltb regs.1 0x0b
        then fail 0
        else if half_xtal / 1000 == 0
        then no_result
        else fc0012_program
            (regs.0
              ∷ regs.1
              ∷ xin / 2 ^ 8
              ∷ bit_and xin 0xff
              ∷ bit_or (choose_divider freq).reg5 0x07
              ∷ reg6
              ∷ [])
            (leb 3060000000 f_vco) reg6

  unfoldable pub fc0012_gain_bits : ℤ → ℕ
  fc0012_gain_bits gain =
      if same_ℤ gain (negsuc 98)
      then 0x02
      else if same_ℤ gain (negsuc 39)
      then 0x00
      else if same_ℤ gain (pos 71)
      then 0x08
      else if same_ℤ gain (pos 179)
      then 0x17
      else 0x10

  -- A failed read is overwritten by the write, with `tmp` still 0.
  unfoldable pub fc0012_set_gain : ℤ → M (Unit {0})
  fc0012_set_gain gain = do
    tmp ← or_value 0 (fc0012_readreg 0x13)
    fc0012_writereg 0x13 (bit_or (bit_and tmp 0xe0) (fc0012_gain_bits gain))

  unfoldable pub fc0012_set_freq : Doubles → ℕ → M (Unit {0})
  fc0012_set_freq doubles freq = do
    set_gpio_bit host 6 (ltb 300000000 freq)
    fc0012_set_params doubles freq 6000000

  -- The entry of `tuners` for the FC0012.
  abbrev pub fc0012 : Doubles → Tuner
  fc0012 doubles = record {
    core = record {
      init = some fc0012_init;
      exit = some (pure tt);
      set_freq = some (fc0012_set_freq doubles);
    };
    set_bw = some (λ bw. pure tt);
    set_gain = some fc0012_set_gain;
    set_if_gain = none;
    set_gain_mode = some (λ manual. pure tt);
  }
