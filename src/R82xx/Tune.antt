-- ===== src/R82xx/Tune.antt =====
-- src/tuner_r82xx.c, `r82xx_set_freq`: tuning, and the switch between the tuner's inputs.
use rtl_sdr_blog.Common.{List, [], if◌then◌else◌, leb, ltb, not, ℕ, ◌&&◌, ◌+◌, ◌==◌, ◌||◌, ◌∷◌}
use rtl_sdr_blog.Common.Word.{u32}
use rtl_sdr_blog.State.{Dev, Host, M, get, get_r82xx, modify_r82xx, when, ◌>>=◌, ◌>>◌}
use rtl_sdr_blog.Usb.{check_dongle_model, set_bias_tee_gpio}
use rtl_sdr_blog.R82xx.Regs.{RegWrite, masked, plain, write_all, write_reg_mask}
use rtl_sdr_blog.R82xx.Mux.{set_mux}
use rtl_sdr_blog.R82xx.Pll.{is_r828d, set_pll}
use rtl_sdr_blog.R82xx.Gain.{set_vga_gain}

-- `HF`, `VHF` and `UHF`.
abbrev pub hf : ℕ
hf = 1

abbrev pub vhf : ℕ
vhf = 2

abbrev pub uhf : ℕ
uhf = 3

-- `MHZ(28.8)` and `MHZ(2.2)` are products of doubles, and these integers.
abbrev pub mhz_28_8 : ℕ
mhz_28_8 = 28800000

abbrev pub mhz_2_2 : ℕ
mhz_2_2 = 2200000

-- The three kinds of dongle that the code tells apart.
pub data Model : Type 0 where
  blog_v4 blog_v4l other_model : Model

unfoldable pub model : Dev → Model
unfolding check_dongle_model
model d =
    if check_dongle_model d "RTLSDRBlog" "Blog V4"
    then blog_v4
    else if check_dongle_model d "RTLSDRBlog" "Blog V4L"
    then blog_v4l
    else other_model

unfoldable pub upconvert : Model → ℕ → ℕ
upconvert blog_v4 freq = if ltb freq mhz_28_8 then freq + mhz_28_8 else freq
upconvert blog_v4l freq = if ltb freq mhz_28_8 then freq + mhz_28_8 else freq
upconvert other_model freq = freq

-- The notch filters are off inside the notch bands.
unfoldable pub notch : ℕ → ℕ
notch freq =
    if leb freq mhz_2_2
      || (leb 85000000 freq && leb freq 112000000)
      || (leb 172000000 freq && leb freq 242000000)
    then 0x00
    else 0x08

unfoldable pub band_v4 : ℕ → ℕ
band_v4 freq =
    if leb freq mhz_28_8 then hf else if ltb mhz_28_8 freq && ltb freq 250000000 then vhf else uhf

unfoldable pub band_v4l : ℕ → ℕ
band_v4l freq = if leb freq mhz_28_8 then hf else uhf

-- The tracking filter is bypassed for HF.
unfoldable pub bypass_writes : ℕ → List RegWrite
bypass_writes band = if band == hf then masked 0x1a 0x40 0xc3 ∷ plain 0x1b 0x00 ∷ [] else []

module _ (host : Host) where
  -- The inputs of the V4: cable 2 is HF, cable 1 is VHF, and Air-In is UHF.
  unfoldable pub switch_v4 : ℕ → M (Unit {0})
  switch_v4 band = do
    modify_r82xx (λ q. record q { input = band })
    write_all host (masked 0x06 (if band == hf then 0x08 else 0x00) 0x08 ∷ [])
    set_bias_tee_gpio host 5 (not (band == hf))
    write_all host (
        masked 0x05 (if band == vhf then 0x40 else 0x00) 0x40
        ∷ masked 0x05 (if band == uhf then 0x00 else 0x20) 0x20
        ∷ [])

  -- The inputs of the V4L: cable 1 is HF, and Air-In is UHF.
  unfoldable pub switch_v4l : ℕ → M (Unit {0})
  switch_v4l band = do
    modify_r82xx (λ q. record q { input = band })
    set_bias_tee_gpio host 5 (not (band == hf))
    write_all host (
        masked 0x05 (if band == hf then 0x40 else 0x00) 0x40
        ∷ masked 0x05 (if band == uhf then 0x00 else 0x20) 0x20
        ∷ [])

  -- What follows the PLL: the input for the frequency, on each kind of dongle.
  unfoldable pub select_input : Model → ℕ → M (Unit {0})
  select_input blog_v4 freq = do
    write_reg_mask host 0x17 (notch freq) 0x08
    let band = band_v4 freq
    write_all host (bypass_writes band)
    p ← get_r82xx
    when (not (band == p.input)) (switch_v4 band)
  select_input blog_v4l freq = do
    let band = band_v4l freq
    write_all host (bypass_writes band)
    p ← get_r82xx
    when (not (band == p.input)) (switch_v4l band)
  select_input other_model freq = do
    let air_cable1_in : ℕ = if ltb 345000000 freq then 0x00 else 0x60
    p ← get_r82xx
    when (is_r828d p.rafael_chip && not (air_cable1_in == p.input)) (do
      modify_r82xx (λ q. record q { input = air_cable1_in })
      write_reg_mask host 0x05 air_cable1_in 0x60)

  -- With no lock the call ends there, and returns 0.
  unfoldable pub set_freq : ℕ → M (Unit {0})
  set_freq freq = do
    d ← get
    let kind = model d
    let lo_freq = u32 (upconvert kind freq + d.r82xx.int_freq)
    set_mux host lo_freq
    set_vga_gain host
    set_pll host lo_freq
    p ← get_r82xx
    when p.has_lock (select_input kind freq)
