-- ===== src/E4k/Pll.antt =====
-- src/tuner_e4k.c: the PLL, the band, and tuning.
pub mod Near
use rtl_sdr_blog.Common.{
  Bool, List, Option, [], bit_and, if◌then◌else◌, ltb, none, not, some, ℕ, ◌*◌, ◌+◌, ◌-◌, ◌/◌, ◌==◌,
  ◌^◌, ◌||◌, ◌∷◌,
}
use rtl_sdr_blog.Common.Word.{nonzero, u16, u32, u64, u8}
use rtl_sdr_blog.State.{
  Band, Host, M, PllParams, band_l, fail, get, ignore, modify_e4k, or_value, pure, uhf, vhf2, vhf3,
  when, ◌>>=◌, ◌>>◌,
}
use rtl_sdr_blog.E4k.{reg_read, reg_set_mask, reg_write}
use rtl_sdr_blog.E4k.Reg.{bias, synth1, synth3, synth4, synth5, synth7}
use rtl_sdr_blog.E4k.Filter.{rf_filter_set}

-- `struct pll_settings`.
pub record PllSettings : Type 0 where
  pub freq : ℕ
  pub reg_synth7 : ℕ
  pub mult : ℕ

abbrev entry : ℕ → ℕ → ℕ → PllSettings
entry freq reg_synth7 mult = record { freq = freq; reg_synth7 = reg_synth7; mult = mult }

abbrev pub pll_vars : List PllSettings
pll_vars =
    entry 72400000 15 48
    ∷ entry 81200000 14 40
    ∷ entry 108300000 13 32
    ∷ entry 162500000 12 24
    ∷ entry 216600000 11 16
    ∷ entry 325000000 10 12
    ∷ entry 350000000 9 8
    ∷ entry 432000000 3 8
    ∷ entry 667000000 2 6
    ∷ entry 1200000000 1 4
    ∷ []

-- Above the last entry the divider is 2, and the register 0.
unfoldable pub pick_settings : List PllSettings → ℕ → PllSettings
pick_settings [] intended_flo = entry 0 0 2
pick_settings (s ∷ vars) intended_flo =
    if ltb intended_flo s.freq then s else pick_settings vars intended_flo

unfoldable pub is_fosc_valid : ℕ → Bool
is_fosc_valid fosc = not (ltb fosc 16000000 || ltb 30000000 fosc)

unfoldable pub use_3ph_mixing : ℕ → Bool
use_3ph_mixing flo = ltb flo 350000000

unfoldable pub compute_fvco : ℕ → ℕ → ℕ → ℕ
compute_fvco f_osc z x = u64 (f_osc * z + f_osc * x / 65536)

-- The error is a frequency to the callers.
unfoldable pub compute_flo : ℕ → ℕ → ℕ → ℕ → ℕ
compute_flo f_osc z x r =
    let fvco = compute_fvco f_osc z x in if fvco == 0 then 2 ^ 32 - 22 else u32 (fvco / r)

-- The part after the choice of the divider; `fosc` is not 0.
abbrev pub params_with : PllSettings → ℕ → ℕ → PllParams
params_with s fosc intended_flo =
    let intended_fvco = intended_flo * s.mult in
    let z = intended_fvco / fosc in
    let x = u32 ((intended_fvco - fosc * z) * 65536 / fosc) in
    record {
      fosc = fosc;
      intended_flo = intended_flo;
      flo = compute_flo fosc (u8 z) (u16 x) s.mult;
      x = u16 x;
      z = u8 z;
      r = s.mult;
      r_idx = s.reg_synth7;
      threephase = nonzero (bit_and s.reg_synth7 0x08);
    }

-- `none` is the return value 0 for a clock that is not valid.
unfoldable pub compute_pll_params : ℕ → ℕ → Option PllParams
compute_pll_params fosc intended_flo =
    if is_fosc_valid fosc
    then some (params_with (pick_settings pll_vars intended_flo) fosc intended_flo)
    else none

abbrev pub band_bits : Band → ℕ
band_bits vhf2 = 0
band_bits vhf3 = 1
band_bits uhf = 2
band_bits band_l = 3

abbrev pub bias_bits : Band → ℕ
bias_bits vhf2 = 3
bias_bits vhf3 = 3
bias_bits uhf = 3
bias_bits band_l = 0

unfoldable pub band_for : ℕ → Band
band_for flo =
    if ltb flo 140000000
    then vhf2
    else if ltb flo 350000000
    then vhf3
    else if ltb flo 1135000000
    then uhf
    else band_l

module _ (host : Host) where
  -- The return value of the first masked write is overwritten.
  unfoldable pub band_set : Band → M (Unit {0})
  band_set band = do
    ignore (reg_write host bias (bias_bits band))
    ignore (reg_set_mask host synth1 0x06 0)
    reg_set_mask host synth1 0x06 (band_bits band * 2)
    modify_e4k (λ k. record k { band = band })

  unfoldable pub tune_params : PllParams → M (Unit {0})
  tune_params p = do
    ignore (reg_write host synth7 p.r_idx)
    ignore (reg_write host synth3 p.z)
    ignore (reg_write host synth4 (bit_and p.x 0xff))
    ignore (reg_write host synth5 (p.x / 2 ^ 8))
    modify_e4k (λ k. record k { vco = p })
    ignore (band_set (band_for p.flo))
    ignore (rf_filter_set host)

  -- A failed read of the lock is -1, whose lowest bit is set.
  unfoldable pub tune_freq : ℕ → M (Unit {0})
  tune_freq freq = do
    d ← get
    elim (compute_pll_params d.e4k.vco.fosc freq) [
      | none ↦ fail 21
      | some p ↦ when (p.flo == 0) (fail 21) >> (do
        tune_params p
        lock ← or_value (2 ^ 32 - 1) (reg_read host synth1)
        if bit_and lock 0x01 == 0 then fail 0 else pure tt)
    ]
