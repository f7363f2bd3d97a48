-- ===== src/Fc2580.antt =====
-- src/tuner_fc2580.c: the driver of the FC2580.
pub mod Pll
mod Tests
use rtl_sdr_blog.Common.{
  Bool, List, [], bit_and, bit_or, false, if◌then◌else◌, leb, ltb, suc, true, zero, ℕ, ◌&&◌, ◌*◌,
  ◌++◌, ◌+◌, ◌-◌, ◌/◌, ◌==◌, ◌^◌, ◌∷◌,
}
use rtl_sdr_blog.Common.Word.{u32, u8}
use rtl_sdr_blog.State.{Host, M, err, fault, ok, pure, ◌>>=◌, ◌>>◌}
use rtl_sdr_blog.Usb.{byte_or, i2c_read, i2c_write, status}

abbrev pub fc2580_i2c_addr : ℕ
fc2580_i2c_addr = 0xac

-- `(CRYSTAL_FREQ + 500) / 1000`.
abbrev pub crystal_freq_khz : ℕ
crystal_freq_khz = (16384000 + 500) / 1000

-- `fc2580_band_type`, less the value that nothing uses.
pub data Fc2580Band : Type 0 where
  uhf_band l_band vhf_band : Fc2580Band

unfoldable pub band_of : ℕ → Fc2580Band
band_of f_lo = if ltb 1000000 f_lo then l_band else if ltb 400000 f_lo then uhf_band else vhf_band

abbrev pub init_writes : List (ℕ × ℕ)
init_writes =
    (0x00, 0x00)
    ∷ (0x12, 0x86)
    ∷ (0x14, 0x5c)
    ∷ (0x16, 0x3c)
    ∷ (0x1f, 0xd2)
    ∷ (0x09, 0xd7)
    ∷ (0x0b, 0xd5)
    ∷ (0x0c, 0x32)
    ∷ (0x0e, 0x43)
    ∷ (0x21, 0x0a)
    ∷ (0x22, 0x82)
    ∷ []

abbrev pub agc_writes : ℕ → List (ℕ × ℕ)
agc_writes ifagc_mode =
    if ifagc_mode == 1
    then (0x45, 0x10) ∷ (0x4c, 0x00) ∷ []
    else if ifagc_mode == 2
    then (0x45, 0x20) ∷ (0x4c, 0x02) ∷ []
    else []

abbrev pub late_writes : List (ℕ × ℕ)
late_writes = (0x3f, 0x88) ∷ (0x02, 0x0e) ∷ (0x58, 0x14) ∷ []

-- The multiple of the crystal for a filter, in the 8 bits of register 0x37.
abbrev pub filter_steps : ℕ → ℕ → ℕ
filter_steps factor freq_xtal = u8 (u32 (factor * freq_xtal) / 1000000)

abbrev pub bandwidth_writes : ℕ → ℕ → List (ℕ × ℕ)
bandwidth_writes filter_bw freq_xtal =
    if filter_bw == 1
    then (0x36, 0x1c) ∷ (0x37, filter_steps 4151 freq_xtal) ∷ (0x39, 0x00) ∷ (0x2e, 0x09) ∷ []
    else if filter_bw == 6
    then (0x36, 0x18) ∷ (0x37, filter_steps 4400 freq_xtal) ∷ (0x39, 0x00) ∷ (0x2e, 0x09) ∷ []
    else if filter_bw == 7
    then (0x36, 0x18) ∷ (0x37, filter_steps 3910 freq_xtal) ∷ (0x39, 0x80) ∷ (0x2e, 0x09) ∷ []
    else if filter_bw == 8
    then (0x36, 0x18) ∷ (0x37, filter_steps 3300 freq_xtal) ∷ (0x39, 0x80) ∷ (0x2e, 0x09) ∷ []
    else []

abbrev pub uhf_head : List (ℕ × ℕ)
uhf_head =
    (0x25, 0xf0)
    ∷ (0x27, 0x77)
    ∷ (0x28, 0x53)
    ∷ (0x29, 0x60)
    ∷ (0x30, 0x09)
    ∷ (0x50, 0x8c)
    ∷ (0x53, 0x50)
    ∷ []

abbrev pub uhf_rf : ℕ → List (ℕ × ℕ)
uhf_rf f_lo =
    (0x5f, if ltb f_lo 538000 then 0x13 else 0x15)
    ∷ (if ltb f_lo 538000
        then (0x61, 0x07)
          ∷ (0x62, 0x06)
          ∷ (0x67, 0x06)
          ∷ (0x68, 0x08)
          ∷ (0x69, 0x10)
          ∷ (0x6a, 0x12)
          ∷ []
        else if ltb f_lo 794000
        then (0x61, 0x03)
          ∷ (0x62, 0x03)
          ∷ (0x67, 0x03)
          ∷ (0x68, 0x05)
          ∷ (0x69, 0x0c)
          ∷ (0x6a, 0x0e)
          ∷ []
        else (0x61, 0x07)
          ∷ (0x62, 0x06)
          ∷ (0x67, 0x07)
          ∷ (0x68, 0x09)
          ∷ (0x69, 0x10)
          ∷ (0x6a, 0x12)
          ∷ [])

abbrev pub uhf_tail : List (ℕ × ℕ)
uhf_tail =
    (0x63, 0x15) ∷ (0x6b, 0x0b) ∷ (0x6c, 0x0c) ∷ (0x6d, 0x78) ∷ (0x6e, 0x32) ∷ (0x6f, 0x14) ∷ []

abbrev pub vhf_writes : List (ℕ × ℕ)
vhf_writes =
    (0x27, 0x77)
    ∷ (0x28, 0x33)
    ∷ (0x29, 0x40)
    ∷ (0x30, 0x09)
    ∷ (0x50, 0x8c)
    ∷ (0x53, 0x50)
    ∷ (0x5f, 0x0f)
    ∷ (0x61, 0x07)
    ∷ (0x62, 0x00)
    ∷ (0x63, 0x15)
    ∷ (0x67, 0x03)
    ∷ (0x68, 0x05)
    ∷ (0x69, 0x10)
    ∷ (0x6a, 0x12)
    ∷ (0x6b, 0x08)
    ∷ (0x6c, 0x0a)
    ∷ (0x6d, 0x78)
    ∷ (0x6e, 0x32)
    ∷ (0x6f, 0x54)
    ∷ []

abbrev pub l_writes : List (ℕ × ℕ)
l_writes =
    (0x2b, 0x70)
    ∷ (0x2c, 0x37)
    ∷ (0x2d, 0xe7)
    ∷ (0x30, 0x09)
    ∷ (0x44, 0x20)
    ∷ (0x50, 0x8c)
    ∷ (0x53, 0x50)
    ∷ (0x5f, 0x0f)
    ∷ (0x61, 0x0f)
    ∷ (0x62, 0x00)
    ∷ (0x63, 0x13)
    ∷ (0x67, 0x00)
    ∷ (0x68, 0x02)
    ∷ (0x69, 0x0c)
    ∷ (0x6a, 0x0e)
    ∷ (0x6b, 0x08)
    ∷ (0x6c, 0x0a)
    ∷ (0x6d, 0xa0)
    ∷ (0x6e, 0x50)
    ∷ (0x6f, 0x14)
    ∷ []

abbrev pub band_writes : Fc2580Band → ℕ → List (ℕ × ℕ)
band_writes uhf_band f_lo = uhf_head ++ (uhf_rf f_lo ++ uhf_tail)
band_writes vhf_band f_lo = vhf_writes
band_writes l_band f_lo = l_writes

abbrev pub band_filter : Fc2580Band → ℕ
band_filter uhf_band = 8
band_filter vhf_band = 7
band_filter l_band = 1

abbrev pub band_select : Fc2580Band → ℕ → ℕ
band_select uhf_band data_02 = bit_and data_02 0x3f
band_select vhf_band data_02 = bit_or (bit_and data_02 0x3f) 0x80
band_select l_band data_02 = bit_or (bit_and data_02 0x3f) 0x40

abbrev pub band_mult : Fc2580Band → ℕ
band_mult uhf_band = 4
band_mult l_band = 2
band_mult vhf_band = 12

unfoldable pub vco_of : ℕ → ℕ
vco_of f_lo = u32 (f_lo * band_mult (band_of f_lo))

unfoldable pub r_of : ℕ → ℕ → ℕ
r_of f_vco freq_xtal =
    if leb (u32 (2 * 76 * freq_xtal)) f_vco
    then 1
    else if leb (u32 (76 * freq_xtal)) f_vco
    then 2
    else 4

-- For a comparison frequency of 8 kHz at least, so that nothing is divided by 0.
unfoldable pub n_of : ℕ → ℕ → ℕ
n_of f_vco f_comp = f_vco / 2 / f_comp

-- The fraction, rounded to the nearest.
unfoldable pub k_of : ℕ → ℕ → ℕ
k_of f_vco f_comp =
    let f_diff = f_vco - u32 (2 * f_comp * n_of f_vco f_comp) in
    let f_diff_shifted = u32 (f_diff * 2 ^ 16) in
    let step = 2 * f_comp / 2 ^ 4 in
    let k_val = f_diff_shifted / step in
    if leb (f_comp / 2 ^ 4) (f_diff_shifted - k_val * step) then u32 (k_val + 1) else k_val

abbrev pub r_bits : ℕ → ℕ
r_bits r_val = if r_val == 1 then 0x00 else if r_val == 2 then 0x10 else 0x20

-- Registers 0x18, 0x1a, 0x1b and 0x1c.
abbrev pub pll_writes : ℕ → ℕ → ℕ → List (ℕ × ℕ)
pll_writes r_val n_val k_val =
    (0x18, u8 (r_bits r_val + u8 (k_val / 2 ^ 16)))
    ∷ (0x1a, u8 (k_val / 2 ^ 8))
    ∷ (0x1b, u8 k_val)
    ∷ (0x1c, u8 n_val)
    ∷ []

unfoldable pub pll_for : ℕ → ℕ → List (ℕ × ℕ)
pll_for f_vco freq_xtal =
    let r_val = r_of f_vco freq_xtal in
    let f_comp = freq_xtal / r_val in pll_writes r_val (n_of f_vco f_comp) (k_of f_vco f_comp)

abbrev pub vco_bits : ℕ → ℕ
vco_bits f_vco = if leb 2600000 f_vco then bit_or 0x0e 0x08 else bit_and 0x0e 0xf7

abbrev pub agc_clock_writes : ℕ → List (ℕ × ℕ)
agc_clock_writes freq_xtal = if leb 28000 freq_xtal then (0x4b, 0x22) ∷ [] else []

abbrev pub load_cap_writes : Fc2580Band → ℕ → List (ℕ × ℕ)
load_cap_writes uhf_band f_lo = (0x2d, if leb f_lo 794000 then 0x9f else 0x8f) ∷ []
load_cap_writes vhf_band f_lo = []
load_cap_writes l_band f_lo = []

-- A call whose outcome is only good or bad.
abbrev pub succeeded : {A : Type 0} → M A → M Bool
succeeded m d = elim (m d) [ ok a e ↦ ok true e | err n e ↦ ok false e | fault ↦ fault ]

-- `result &= k`, after `m`.
infixl 6 ◌&=◌
abbrev pub ◌&=◌ : M Bool → M Bool → M Bool
m &= k = m >>= λ a. k >>= λ b. pure (a && b)

module _ (host : Host) where
  unfoldable pub fc2580_i2c_write : ℕ → ℕ → M Bool
  fc2580_i2c_write reg val = succeeded (i2c_write host fc2580_i2c_addr (reg ∷ val ∷ []))

  -- Whether the read went well, and what `*read_data` is then.
  unfoldable pub fc2580_i2c_read : ℕ → ℕ → M (Bool × ℕ)
  fc2580_i2c_read reg old = do
    good ← succeeded (i2c_write host fc2580_i2c_addr (reg ∷ []))
    if good
        then (do
          r ← i2c_read host fc2580_i2c_addr 1
          good ← succeeded (status r)
          pure (if good then (true, byte_or r 0 reg) else (false, old)))
        else pure (false, old)

  -- All writes are made, whatever becomes of them.
  unfoldable pub fc2580_writes : List (ℕ × ℕ) → M Bool
  fc2580_writes [] = pure true
  fc2580_writes ((reg, val) ∷ writes) = fc2580_i2c_write reg val &= fc2580_writes writes

  -- The rounds that are left of the calibration, with the value that the last one read.
  unfoldable pub calibrate_filter : ℕ → ℕ → M Bool
  calibrate_filter zero cal_mon = pure true
  calibrate_filter (suc rounds) cal_mon = do
    (good, cal_mon) ← fc2580_i2c_read 0x2f cal_mon
    let rest = calibrate_filter rounds cal_mon
    rest_good ←
        if bit_and cal_mon 0xc0 == 0xc0
        then pure true
        else fc2580_writes ((0x2e, 0x01) ∷ (0x2e, 0x09) ∷ []) &= rest
    pure (good && rest_good)

  unfoldable pub set_filter : ℕ → ℕ → M Bool
  set_filter filter_bw freq_xtal =
      fc2580_writes (bandwidth_writes filter_bw freq_xtal)
      &= calibrate_filter 5 0
      &= fc2580_i2c_write 0x2e 0x01

  unfoldable pub set_init : ℕ → ℕ → M Bool
  set_init ifagc_mode freq_xtal =
      fc2580_writes (init_writes ++ (agc_writes ifagc_mode ++ late_writes))
      &= set_filter 8 freq_xtal

  unfoldable pub fc2580_set_freq : ℕ → ℕ → M Bool
  fc2580_set_freq f_lo freq_xtal =
      let band = band_of f_lo in
      let f_vco = vco_of f_lo in
      fc2580_writes (band_writes band f_lo)
      &= set_filter (band_filter band) freq_xtal
      &= fc2580_writes (
          agc_clock_writes freq_xtal
          ++ ((0x02, band_select band (vco_bits f_vco))
              ∷ (pll_for f_vco freq_xtal ++ load_cap_writes band f_lo)))

  -- `true` is FUNCTION_SUCCESS; FUNCTION_ERROR is 1, which no caller takes for an error code.
  unfoldable pub initialize : M Bool
  initialize = set_init 2 crystal_freq_khz

  unfoldable pub set_rf_freq_hz : ℕ → M Bool
  set_rf_freq_hz rf_freq_hz = fc2580_set_freq ((rf_freq_hz + 500) / 1000) crystal_freq_khz

  unfoldable pub set_bandwidth_mode : ℕ → M Bool
  set_bandwidth_mode bandwidth_mode = set_filter (u8 bandwidth_mode) crystal_freq_khz
