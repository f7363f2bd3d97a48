-- ===== src/R82xx/Mux.antt =====
-- src/tuner_r82xx.c, `r82xx_set_mux`: the tracking filter and the multiplexer for a frequency.
pub mod Laws
use rtl_sdr_blog.Common.{List, [], bit_or, if◌then◌else◌, ltb, ℕ, ◌/◌, ◌∷◌}
use rtl_sdr_blog.State.{
  Host, M, XtalCap, get_r82xx, high_cap_0p, low_cap_0p, low_cap_10p, low_cap_20p, low_cap_30p,
  ◌>>=◌, ◌>>◌,
}
use rtl_sdr_blog.R82xx.Tables.{FreqRange, first_range, later_ranges}
use rtl_sdr_blog.R82xx.Regs.{RegWrite, masked, plain, write_all}

-- The loop over `freq_ranges`: stop before the first range that begins above `freq`.
unfoldable pub pick : FreqRange → List FreqRange → ℕ → FreqRange
pick r [] freq = r
pick r (s ∷ rest) freq = if ltb freq s.freq then r else pick s rest freq

unfoldable pub pick_range : ℕ → FreqRange
unfolding pick
pick_range freq = pick first_range later_ranges freq

-- The capacitor bits of register 0x10.
unfoldable pub cap_bits : XtalCap → FreqRange → ℕ
cap_bits low_cap_30p r = bit_or r.xtal_cap20p 0x08
cap_bits low_cap_20p r = bit_or r.xtal_cap20p 0x08
cap_bits low_cap_10p r = bit_or r.xtal_cap10p 0x08
cap_bits high_cap_0p r = bit_or r.xtal_cap0p 0x00
cap_bits low_cap_0p r = bit_or r.xtal_cap0p 0x08

-- The register writes for a range.
unfoldable pub mux_writes : XtalCap → FreqRange → List RegWrite
unfolding cap_bits
mux_writes cap r =
    masked 0x17 r.open_d 0x08
    ∷ masked 0x1a r.rf_mux_ploy 0xc3
    ∷ plain 0x1b r.tf_c
    ∷ masked 0x10 (cap_bits cap r) 0x0b
    ∷ masked 0x08 0x00 0x3f
    ∷ masked 0x09 0x00 0x3f
    ∷ []

module _ (host : Host) where
  unfoldable pub set_mux : ℕ → M (Unit {0})
  set_mux freq = do
    let r = pick_range (freq / 1000000)
    p ← get_r82xx
    write_all host (mux_writes p.xtal_cap_sel r)
