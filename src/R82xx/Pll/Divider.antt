-- ===== src/R82xx/Pll/Divider.antt =====
-- The divider of `r82xx_set_pll`, and the bytes that the integer part is cut into.
use rtl_sdr_blog.Common.{
  Option, arith, none, refl, some, ℕ, ◌%◌, ◌*◌, ◌+◌, ◌-◌, ◌/◌, ◌<◌, ◌^◌, ◌≡◌, ◌≤◌,
}
use rtl_sdr_blog.Common.Word.{u32, u64, u8}
use rtl_sdr_blog.R82xx.Pll.{find_divider, pll_fra, pll_ni, pll_nint, pll_si, vco_max, vco_min}
use native.Mathlib.Nat.{div-add-mod', mod-lt, mod-eq_of_lt, div-lt_iff_lt-mul}

-- `(mix_div, div_num)` brings `freq_khz` into the range of the VCO, and `mix_div` is the power of
-- two whose exponent is `div_num + 1`.
abbrev pub Divides : ℕ → Option (ℕ × ℕ) → Type 0
Divides freq_khz none = ⊥
Divides freq_khz (some (mix_div, div_num)) =
    (vco_min ≤ freq_khz * mix_div)
    × (freq_khz * mix_div < vco_max)
    × (mix_div ≡ 2 ^ (div_num + 1))
    × (div_num < 6)

-- For a frequency from 27657 kHz to just below 1770000 kHz, the divider loop ends with a power of
-- two, with its exponent as `div_num`, that brings the VCO into its range of 1.77 to just below
-- 3.54 GHz.
pub find_divider-Divides :
    (freq_khz : ℕ)
    → 27657 ≤ freq_khz
    → freq_khz < 1770000
    → Divides freq_khz (find_divider 8 freq_khz 2)
unfolding find_divider
find_divider-Divides freq_khz low high = ground arith

abbrev Small : Option (ℕ × ℕ) → Type 0
Small none = ⊥
Small (some (m, k)) = (m ≤ 128) × (k < 6)

find_divider-Small : (freq_khz : ℕ) → Small (find_divider 8 freq_khz 2)
unfolding find_divider
find_divider-Small freq_khz = ground arith

-- The search ends, at any frequency, and its divider is at most 128.
pub find_divider_ends :
    (freq_khz : ℕ)
    → (m : ℕ) × (k : ℕ) × (find_divider 8 freq_khz 2 ≡ some (m, k)) × (m ≤ 128) × (k < 6)
find_divider_ends freq_khz = of_Small (find_divider 8 freq_khz 2) refl (find_divider-Small freq_khz)
  where
    of_Small :
        (r : Option (ℕ × ℕ))
        → find_divider 8 freq_khz 2 ≡ r
        → Small r
        → (m : ℕ) × (k : ℕ) × (find_divider 8 freq_khz 2 ≡ some (m, k)) × (m ≤ 128) × (k < 6)
    of_Small none e h = absurd h
    of_Small (some (m, k)) e h = (m, k, e, h.0, h.1)

-- For an integer part from 13 to 255, the two fields that the PLL code packs it into give it back
-- as 13 + 4 * ni + si, and they fit into 6 and 2 bits.
pub pll_ni-pll_si :
    (nint : ℕ)
    → 13 ≤ nint
    → nint < 256
    → (13 + 4 * pll_ni nint + pll_si nint ≡ nint) × (pll_ni nint < 64) × (pll_si nint < 4)
unfolding pll_ni pll_si
pll_ni-pll_si nint low high = ground arith

fra_of_rest :
    (vco_freq r q rest : ℕ)
    → q * r + rest ≡ vco_freq
    → rest < r
    → vco_freq < 2 ^ 32
    → u32 (u64 (vco_freq + 2 ^ 64 - u32 (r * q)) / 1000) ≡ rest / 1000
fra_of_rest vco_freq r q rest e h fits = omega arith

-- Where the VCO frequency is below 2^32 Hz and below 256 times twice the crystal, and twice the
-- crystal below 2^32, the integer part and the fractional part in kHz that the PLL code computes
-- give the VCO frequency back up to less than 1 kHz, and the fractional part is below twice the
-- crystal.
pub pll_nint-pll_fra :
    (vco_freq xtal : ℕ)
    → 0 < xtal
    → vco_freq < 2 ^ 32
    → vco_freq < 256 * (2 * xtal)
    → 2 * xtal < 2 ^ 32
    → (pll_nint vco_freq xtal * (2 * xtal) + 1000 * pll_fra vco_freq xtal (pll_nint vco_freq xtal)
        ≤ vco_freq)
      × (vco_freq
          < pll_nint vco_freq xtal * (2 * xtal)
            + 1000 * pll_fra vco_freq xtal (pll_nint vco_freq xtal)
            + 1000)
      × (1000 * pll_fra vco_freq xtal (pll_nint vco_freq xtal) < 2 * xtal)
unfolding pll_nint pll_fra
pll_nint-pll_fra vco_freq xtal pos fits small wide =
    rw
      (
        no_wrap,
        in_byte,
        fra_of_rest vco_freq (2 * xtal) (vco_freq / (2 * xtal)) (vco_freq % (2 * xtal)) whole
            rest_small fits,
      )
      (omega (arith, whole, rest_small))
  where
    no_wrap : u32 (2 * xtal) ≡ 2 * xtal
    no_wrap = omega arith

    whole : vco_freq / (2 * xtal) * (2 * xtal) + vco_freq % (2 * xtal) ≡ vco_freq
    whole = div-add-mod' vco_freq (2 * xtal)

    rest_small : vco_freq % (2 * xtal) < 2 * xtal
    rest_small = mod-lt vco_freq (omega arith)

    in_byte : u8 (vco_freq / (2 * xtal)) ≡ vco_freq / (2 * xtal)
    in_byte = mod-eq_of_lt ((div-lt_iff_lt-mul {k = 2 * xtal} (omega arith)).1 small)
