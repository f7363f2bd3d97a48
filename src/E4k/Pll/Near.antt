-- ===== src/E4k/Pll/Near.antt =====
-- The PLL of the E4000 is set to the frequency, and its mixer to three phases below 350 MHz.
use rtl_sdr_blog.Common.{
  Option, arith, bit_and, false, ltb, none, not, refl, some, true, ℕ, ◌*◌, ◌+◌, ◌-◌, ◌/◌, ◌<◌, ◌==◌,
  ◌^◌, ◌||◌, ◌≡◌, ◌≤◌,
}
use rtl_sdr_blog.Common.Word.{nonzero, u16, u32, u64, u8}
use rtl_sdr_blog.State.{PllParams}
use rtl_sdr_blog.E4k.Pll.{
  PllSettings, compute_flo, compute_fvco, compute_pll_params, is_fosc_valid, params_with,
  pick_settings, pll_vars, use_3ph_mixing,
}
use native.Mathlib.Nat.{
  mod-add-div, mod-lt, mul-div-le, lt-mul-div-succ, div-lt_iff_lt-mul, div-le_of_le-mul, mul_comm,
  mul-le-mul_left, lt-div-mul-add,
}

-- What the registers for `z` and `x` stand for.
abbrev pub stands_for : ℕ → ℕ → ℕ → ℕ
stands_for fosc z x = fosc * z + fosc * x / 65536

-- The quotient, and what is left of the dividend.
rest_of : (a b : ℕ) → 0 < b → (b * (a / b) ≤ a) × (a - b * (a / b) < b)
rest_of a b h = omega (arith, mod-add-div a b, mod-lt a h)

module _ (fosc fvco : ℕ) (low : 16000000 ≤ fosc) (high : fosc ≤ 30000000) where
  abbrev whole : ℕ
  whole = fvco / fosc

  abbrev part : ℕ
  part = (fvco - fosc * (fvco / fosc)) * 65536 / fosc

  part_small : part < 65536
  part_small = (div-lt_iff_lt-mul (omega arith)).1 (omega (arith, rest_of fvco fosc (omega arith)))

  fvco_near : (stands_for fosc whole part ≤ fvco) × (fvco ≤ stands_for fosc whole part + 458)
  fvco_near = omega (
    arith,
    rest_of fvco fosc (omega arith),
    mul-div-le ((fvco - fosc * (fvco / fosc)) * 65536) fosc,
    lt-mul-div-succ ((fvco - fosc * (fvco / fosc)) * 65536) {b = fosc} (omega arith),
    upper,
  )
    where
      upper : fosc * (part + 1) ≡ fosc * part + fosc
      upper = grind arith

pick_mult :
    (freq : ℕ)
    → (2 ≤ (pick_settings pll_vars freq).mult) × ((pick_settings pll_vars freq).mult ≤ 48)
unfolding pick_settings
pick_mult freq = ground arith

pick_threephase :
    (freq : ℕ)
    → nonzero (bit_and (pick_settings pll_vars freq).reg_synth7 0x08) ≡ use_3ph_mixing freq
unfolding pick_settings use_3ph_mixing
pick_threephase freq = ground arith

abbrev pub IsNear : ℕ → ℕ → Option PllParams → Type 0
IsNear fosc freq none = ⊥
IsNear fosc freq (some p) =
    (p.z < 256)
    × (p.x < 65536)
    × (p.flo ≡ stands_for fosc p.z p.x / p.r)
    × (p.flo ≤ freq)
    × (freq * p.r ≤ p.flo * p.r + p.r + 457)
    × (p.threephase ≡ use_3ph_mixing freq)

compute_flo_exact :
    (fosc z x r : ℕ)
    → 0 < stands_for fosc z x
    → stands_for fosc z x < 2 ^ 64
    → stands_for fosc z x / r < 2 ^ 32
    → compute_flo fosc z x r ≡ stands_for fosc z x / r
unfolding compute_flo compute_fvco
compute_flo_exact fosc z x r h k l = rw (exact, isnt_zero) (omega arith)
  where
    exact : u64 (stands_for fosc z x) ≡ stands_for fosc z x
    exact = omega arith

    isnt_zero : (stands_for fosc z x == 0) ≡ false
    isnt_zero = ground arith

params_with-IsNear :
    (s : PllSettings) (fosc freq : ℕ)
    → 16000000 ≤ fosc
    → fosc ≤ 30000000
    → 1000 ≤ freq
    → 2 ≤ s.mult
    → s.mult ≤ 48
    → freq * s.mult < 256 * fosc
    → nonzero (bit_and s.reg_synth7 0x08) ≡ use_3ph_mixing freq
    → IsNear fosc freq (some (params_with s fosc freq))
params_with-IsNear s fosc freq low high large positive most fits mixing =
    rw (z_fits, x_fits, x_fits', flo_exact)
      (z_small, part_small fosc fvco low high, refl, below, above, mixing)
  where
    fvco : ℕ
    fvco = freq * s.mult

    set_to : ℕ
    set_to = stands_for fosc (whole fosc fvco low high) (part fosc fvco low high)

    near :
        (stands_for fosc (whole fosc fvco low high) (part fosc fvco low high) ≤ fvco)
        × (fvco ≤ stands_for fosc (whole fosc fvco low high) (part fosc fvco low high) + 458)
    near = fvco_near fosc fvco low high

    z_small : fvco / fosc < 256
    z_small = (div-lt_iff_lt-mul (omega arith)).1 fits

    z_fits : u8 (fvco / fosc) ≡ fvco / fosc
    z_fits = omega (arith, z_small)

    x_fits : u32 (part fosc fvco low high) ≡ part fosc fvco low high
    x_fits = omega (arith, part_small fosc fvco low high)

    x_fits' : u16 (part fosc fvco low high) ≡ part fosc fvco low high
    x_fits' = omega (arith, part_small fosc fvco low high)

    twice : freq * 2 ≤ fvco
    twice = mul-le-mul_left freq positive

    below : set_to / s.mult ≤ freq
    below = div-le_of_le-mul s.mult (omega (arith, near, mul_comm freq s.mult))

    flo_exact :
        compute_flo fosc (whole fosc fvco low high) (part fosc fvco low high) s.mult
        ≡ set_to / s.mult
    flo_exact =
        compute_flo_exact fosc (whole fosc fvco low high) (part fosc fvco low high) s.mult
          (omega (arith, near, twice)) (omega (arith, near)) (omega (arith, below, twice))

    above : fvco ≤ set_to / s.mult * s.mult + s.mult + 457
    above = omega (arith, near, lt-div-mul-add {a = set_to} {b = s.mult} (omega arith))

-- With a clock of 16 to 30 MHz and a frequency of at least 1 kHz whose multiple is below 256 times
-- the clock, the parameters of the E4000 are found: `z` and `x` fit their registers, the frequency
-- that is returned is what they and the divider stand for, it is not above the frequency that was
-- asked for, and below it by no more than the divider plus 457 Hz at the VCO; three phases are
-- mixed exactly below 350 MHz, as `use_3ph_mixing` says.
pub compute_pll_params-IsNear :
    (fosc freq : ℕ)
    → 16000000 ≤ fosc
    → fosc ≤ 30000000
    → 1000 ≤ freq
    → freq * (pick_settings pll_vars freq).mult < 256 * fosc
    → IsNear fosc freq (compute_pll_params fosc freq)
unfolding compute_pll_params is_fosc_valid
compute_pll_params-IsNear fosc freq low high large fits = rw valid (
    params_with-IsNear (pick_settings pll_vars freq) fosc freq low high large (pick_mult freq).0
      (pick_mult freq).1 fits (pick_threephase freq))
  where
    valid : not (ltb fosc 16000000 || ltb 30000000 fosc) ≡ true
    valid = ground arith
