-- ===== src/R82xx/Pll.antt =====
-- src/tuner_r82xx.c, `r82xx_set_pll`: the divider, the integer and the fractional part of the PLL.
pub mod Sigma
pub mod Divider
use Prim.Native.String.{String}
use rtl_sdr_blog.Common.{
  Bool, Option, [], bit_and, false, get_or, if◌then◌else◌, leb, ltb, none, some, suc, true, zero, ℕ,
  ◌&&◌, ◌*◌, ◌+◌, ◌-◌, ◌/◌, ◌==◌, ◌^◌, ◌||◌, ◌∷◌,
}
use rtl_sdr_blog.Common.Word.{nonzero, u16, u32, u64, u8}
use rtl_sdr_blog.State.{
  Chip, Host, M, chip_r828d, fail, get, get_r82xx, modify_r82xx, no_result, or_stuck, pure, when,
  ◌>>=◌, ◌>>◌,
}
use rtl_sdr_blog.Usb.{check_dongle_model, status}
use rtl_sdr_blog.R82xx.Regs.{masked, plain, read, write_all, write_reg_mask}

abbrev pub vco_min : ℕ
vco_min = 1770000

abbrev pub vco_max : ℕ
vco_max = 3540000

-- `while (div_buf > 2) { div_buf >>= 1; div_num++; }`; `none` where the fuel runs out.
unfoldable pub count_halvings : ℕ → ℕ → ℕ → Option ℕ
count_halvings zero div_buf div_num = none
count_halvings (suc fuel) div_buf div_num =
    let rest = count_halvings fuel (div_buf / 2) (u8 (div_num + 1)) in
    if ltb 2 div_buf then rest else some div_num

abbrev pub with_divider : ℕ → Option ℕ → Option (ℕ × ℕ)
with_divider mix_div none = none
with_divider mix_div (some div_num) = some (mix_div, div_num)

-- The loop for the divider: `mix_div` and `div_num`, or 128 and 0 if no divider fits.
unfoldable pub find_divider : ℕ → ℕ → ℕ → Option (ℕ × ℕ)
unfolding count_halvings
find_divider zero freq_khz mix_div = none
find_divider (suc fuel) freq_khz mix_div =
    let next = find_divider fuel freq_khz (u8 (mix_div * 2)) in
    let found = with_divider mix_div (count_halvings 8 mix_div 0) in
    if leb mix_div 64
    then if leb vco_min (u32 (freq_khz * mix_div)) && ltb (u32 (freq_khz * mix_div)) vco_max
      then found
      else next
    else some (mix_div, 0)

-- The correction of the divider number by the fine tuning that the chip reports.
unfoldable pub adjust_div_num : ℕ → ℕ → ℕ → ℕ
adjust_div_num vco_fine_tune vco_power_ref div_num =
    if ltb vco_power_ref vco_fine_tune
    then u8 (div_num + 255)
    else if ltb vco_fine_tune vco_power_ref
    then u8 (div_num + 1)
    else div_num

-- `vco_freq / (2 * pll_ref)` in a byte, and the rest in kHz.
unfoldable pub pll_nint : ℕ → ℕ → ℕ
pll_nint vco_freq pll_ref = u8 (vco_freq / u32 (2 * pll_ref))

unfoldable pub pll_fra : ℕ → ℕ → ℕ → ℕ
pll_fra vco_freq pll_ref nint =
    u32 (u64 (vco_freq + 2 ^ 64 - u32 (u32 (2 * pll_ref) * nint)) / 1000)

-- `(nint - 13) / 4` rounds towards 0, and both results are bytes.
unfoldable pub pll_ni : ℕ → ℕ
pll_ni nint = if leb 13 nint then u8 ((nint - 13) / 4) else u8 (256 - (13 - nint) / 4)

unfoldable pub pll_si : ℕ → ℕ
unfolding pll_ni
pll_si nint = u8 (nint + 2048 - 4 * pll_ni nint - 13)

-- The sigma-delta word: `none` where C divides by zero, or where the fuel runs out.
unfoldable pub sdm_loop : ℕ → ℕ → ℕ → ℕ → ℕ → Option ℕ
sdm_loop zero pll_ref_khz vco_fra n_sdm sdm = none
sdm_loop (suc fuel) pll_ref_khz vco_fra n_sdm sdm =
    let q = u32 (2 * pll_ref_khz) / n_sdm in
    let sdm' = u16 (sdm + 32768 / (n_sdm / 2)) in
    let taken = sdm_loop fuel pll_ref_khz (vco_fra - q) (u16 (n_sdm * 2)) sdm' in
    let skipped = sdm_loop fuel pll_ref_khz vco_fra (u16 (n_sdm * 2)) sdm in
    if ltb 1 vco_fra
    then if n_sdm == 0
      then none
      else if ltb q vco_fra
      then if leb 0x8000 n_sdm then some sdm' else taken
      else skipped
    else some sdm

abbrev pub is_r828d : Chip → Bool
is_r828d chip_r828d = true
is_r828d c = false

module _ (host : Host) where
  -- The two rounds that wait for the lock; the result is `data[2] & 0x40`.
  unfoldable pub wait_lock : ℕ → M Bool
  wait_lock zero = no_result
  wait_lock (suc left) = do
    let again = wait_lock left
    status ← read host 0x00 3
    if nonzero (bit_and (get_or status 2 0) 0x40)
        then pure true
        else if left == 1
        then write_reg_mask host 0x12 0x06 0xff >> again
        else pure false

  -- From the divider on: the integer part, the sigma-delta word, and the wait for the lock.
  unfoldable pub program_pll : ℕ → ℕ → ℕ → M (Unit {0})
  program_pll freq mix_div vco_power_ref = do
    p ← get_r82xx
    let pll_ref_khz = u32 (p.xtal + 500) / 1000
    let vco_freq = u64 (freq * mix_div)
    when (u32 (2 * p.xtal) == 0) no_result
    let nint = pll_nint vco_freq p.xtal
    let vco_fra = pll_fra vco_freq p.xtal nint
    when (ltb (128 / vco_power_ref - 1) nint) (fail 0)
    write_all host (
        plain 0x14 (u8 (pll_ni nint + pll_si nint * 2 ^ 6))
        ∷ masked 0x12 (if vco_fra == 0 then 0x08 else 0x00) 0x08
        ∷ [])
    sdm ← or_stuck (sdm_loop 32 pll_ref_khz vco_fra 2 0)
    write_all host (plain 0x16 (u8 (sdm / 2 ^ 8)) ∷ plain 0x15 (bit_and sdm 0xff) ∷ [])
    locked ← wait_lock 2
    modify_r82xx (λ q. record q { has_lock = locked })
    when locked (write_reg_mask host 0x1a 0x08 0x08)

  unfoldable pub set_pll : ℕ → M (Unit {0})
  set_pll freq = do
    d ← get
    let freq_khz = u32 (freq + 500) / 1000
    write_all host (masked 0x10 0 0x10 ∷ masked 0x1a 0x00 0x0c ∷ masked 0x12 0x06 0xff ∷ [])
    (mix_div, div_num) ← or_stuck (find_divider 8 freq_khz 2)
    status ← read host 0x00 5
    let vco_power_ref : ℕ =
        if is_r828d d.r82xx.rafael_chip || check_dongle_model d "RTLSDRBlog" "Blog V4L"
        then 1
        else 2
    let vco_fine_tune = bit_and (get_or status 4 0) 0x30 / 2 ^ 4
    let div_num' = adjust_div_num vco_fine_tune vco_power_ref div_num
    write_reg_mask host 0x10 (u8 (div_num' * 2 ^ 5)) 0xe0
    program_pll freq mix_div vco_power_ref
