-- ===== src/Fc0012/Pll.antt =====
-- With the crystal of 28.8 MHz the PLL of the FC0012 is set to the frequency of the VCO.
use rtl_sdr_blog.Common.{
  Bool, Bool-cases, arith, false, if◌then◌else◌, inl, inr, leb, ltb, refl, true, ℕ, ◌%◌, ◌*◌, ◌+◌,
  ◌-◌, ◌/◌, ◌<◌, ◌^◌, ◌∙◌, ◌≡◌, ◌≤◌,
}
use rtl_sdr_blog.Common.Word.{u16, u32}
use rtl_sdr_blog.Fc0012.{am_pm, choose_divider, fraction, limited, rounded, vco_freq}

-- The multiplier keeps the VCO in 32 bits.
vco_freq-exact : (freq : ℕ) → freq < 2 ^ 30 → vco_freq freq ≡ freq * (choose_divider freq).multi
unfolding vco_freq choose_divider
vco_freq-exact freq h = ground arith

abbrev pub half_xtal : ℕ
half_xtal = 14400000

-- The fraction as a signed number of 16 bits, plus 2^15.
abbrev pub shifted_fraction : ℕ → ℕ
shifted_fraction xin = if ltb xin (2 ^ 15) then xin + 2 ^ 15 else xin - 2 ^ 15

-- The frequency times 2^15 that the divider and the fraction stand for, plus half a step of the
-- divider.
abbrev pub set_freq_times : ℕ → ℕ
set_freq_times f_vco =
    half_xtal * (2 ^ 15 * rounded f_vco half_xtal + shifted_fraction (fraction f_vco half_xtal))

remainder : (f : ℕ) → f < 2 ^ 32 → f - u32 (u16 (f / half_xtal) * half_xtal) ≡ f % half_xtal
remainder f h = omega arith

rest_of : (f : ℕ) → f - f / half_xtal * half_xtal ≡ f % half_xtal
rest_of f = omega arith

-- The fraction before it is taken as a signed number.
abbrev part : ℕ → ℕ
part f = f % half_xtal / 1000 * 2 ^ 15 / 14400

rounded_by :
    (f : ℕ)
    → f < 2 ^ 32
    → rounded f half_xtal
      ≡ (if leb 7200000 (f % half_xtal) then f / half_xtal + 1 else f / half_xtal)
unfolding rounded
rounded_by f h = rw (remainder f h) (by_test (leb 7200000 (f % half_xtal)))
  where
    by_test :
        (b : Bool)
        → (if b then u16 (u16 (f / half_xtal) + 1) else u16 (f / half_xtal))
          ≡ (if b then f / half_xtal + 1 else f / half_xtal)
    by_test true = omega arith
    by_test false = omega arith

fraction_by :
    (f : ℕ) → fraction f half_xtal ≡ (if leb 16384 (part f) then part f + 32768 else part f)
unfolding fraction
fraction_by f = rw (rest_of f, cut) (by_test (leb 16384 (part f)))
  where
    cut : u16 (u16 (f % half_xtal / 1000) * 2 ^ 15 / 14400) ≡ part f
    cut = omega arith

    by_test :
        (b : Bool)
        → (if b then u16 (part f + 32768) else part f) ≡ (if b then part f + 32768 else part f)
    by_test true = omega arith
    by_test false = refl

set_freq_times_lem :
    (f : ℕ) → f < 2 ^ 32 → set_freq_times f ≡ half_xtal * (2 ^ 15 * (f / half_xtal + 1) + part f)
set_freq_times_lem f h =
    rw (rounded_by f h, fraction_by f)
      (elim (Bool-cases (leb 7200000 (f % half_xtal))) [
        | inl up ↦ rw (up, part_up up, far) (omega arith)
        | inr down ↦ rw (down, part_down down, near down) (omega arith)
      ])
  where
    part_up : leb 7200000 (f % half_xtal) ≡ true → leb 16384 (part f) ≡ true
    part_up e = ground arith

    part_down : leb 7200000 (f % half_xtal) ≡ false → leb 16384 (part f) ≡ false
    part_down e = ground arith

    far : ltb (part f + 32768) (2 ^ 15) ≡ false
    far = ground arith

    near : leb 7200000 (f % half_xtal) ≡ false → ltb (part f) (2 ^ 15) ≡ true
    near e = ground arith

fraction-near :
    (f : ℕ)
    → f < 2 ^ 32
    → (set_freq_times f ≤ 2 ^ 15 * f + half_xtal * 2 ^ 15)
      × (2 ^ 15 * f + half_xtal * 2 ^ 15 ≤ set_freq_times f + 1000 * 2 ^ 15 + half_xtal)
fraction-near f h = rw (set_freq_times_lem f h) (omega arith)

-- The two registers hold the divider.
am_pm_joined :
    (xdiv : ℕ)
    → 16 ≤ xdiv
    → xdiv < 2048
    → ((am_pm xdiv).0 + 8 * (am_pm xdiv).1 ≡ xdiv) × (2 ≤ (am_pm xdiv).0) × ((am_pm xdiv).0 ≤ 9)
unfolding am_pm
am_pm_joined xdiv h k = ground arith

limited_joined :
    (am pm : ℕ) → am ≤ 9 → pm < 40 → (limited (am, pm)).0 + 8 * (limited (am, pm)).1 ≡ am + 8 * pm
unfolding limited
limited_joined am pm h k = ground arith

limited_accepted :
    (am pm : ℕ)
    → am ≤ 9
    → 2 ≤ am
    → 97 ≤ am + 8 * pm
    → am + 8 * pm ≤ 263
    → ((limited (am, pm)).0 ≤ 15) × (11 ≤ (limited (am, pm)).1) × ((limited (am, pm)).1 ≤ 31)
unfolding limited
limited_accepted am pm h k low high = ground arith

vco_range :
    (freq : ℕ)
    → 22000000 ≤ freq
    → freq < 948600000
    → (2112000000 ≤ vco_freq freq) × (vco_freq freq ≤ 3794399999)
unfolding vco_freq choose_divider
vco_range freq low high = ground arith

divider_range :
    (f : ℕ)
    → 1900000000 ≤ f
    → f ≤ 3794399999
    → (97 ≤ rounded f half_xtal) × (rounded f half_xtal ≤ 263)
divider_range f low high =
    rw (rounded_by f (omega arith)) (by_test (leb 7200000 (f % half_xtal)) refl)
  where
    by_test :
        (b : Bool)
        → leb 7200000 (f % half_xtal) ≡ b
        → (97 ≤ (if b then f / half_xtal + 1 else f / half_xtal))
          × ((if b then f / half_xtal + 1 else f / half_xtal) ≤ 263)
    by_test true e = ground arith
    by_test false e = ground arith

-- Registers 1 and 2 for a frequency of the VCO.
abbrev pub regs_for : ℕ → ℕ × ℕ
regs_for f_vco = limited (am_pm (rounded f_vco half_xtal))

-- The frequency times 2^15 that registers 1 to 4 stand for, plus half a step of the divider.
abbrev pub stands_for : ℕ → ℕ
stands_for f_vco =
    half_xtal
    * (2 ^ 15 * ((regs_for f_vco).0 + 8 * (regs_for f_vco).1)
        + shifted_fraction (fraction f_vco half_xtal))

pub regs_near :
    (f : ℕ)
    → 1900000000 ≤ f
    → f ≤ 3794399999
    → ((regs_for f).0 ≤ 15)
      × (11 ≤ (regs_for f).1)
      × (stands_for f ≤ 2 ^ 15 * f + half_xtal * 2 ^ 15)
      × (2 ^ 15 * f + half_xtal * 2 ^ 15 ≤ stands_for f + 1000 * 2 ^ 15 + half_xtal)
regs_near f low high =
    (accepted.0, accepted.1, omega (arith, joined, near.0), omega (arith, joined, near.1))
  where
    inside : (97 ≤ rounded f half_xtal) × (rounded f half_xtal ≤ 263)
    inside = divider_range f low high

    split :
        ((am_pm (rounded f half_xtal)).0 + 8 * (am_pm (rounded f half_xtal)).1
          ≡ rounded f half_xtal)
        × (2 ≤ (am_pm (rounded f half_xtal)).0)
        × ((am_pm (rounded f half_xtal)).0 ≤ 9)
    split = am_pm_joined (rounded f half_xtal) (omega (arith, inside)) (omega (arith, inside))

    accepted : ((regs_for f).0 ≤ 15) × (11 ≤ (regs_for f).1) × ((regs_for f).1 ≤ 31)
    accepted =
        limited_accepted (am_pm (rounded f half_xtal)).0 (am_pm (rounded f half_xtal)).1 split.2
          split.1 (omega (arith, split, inside)) (omega (arith, split, inside))

    joined : (regs_for f).0 + 8 * (regs_for f).1 ≡ rounded f half_xtal
    joined =
        limited_joined (am_pm (rounded f half_xtal)).0 (am_pm (rounded f half_xtal)).1 split.2
          (omega (arith, split, inside))
        ∙ split.0

    near :
        (set_freq_times f ≤ 2 ^ 15 * f + half_xtal * 2 ^ 15)
        × (2 ^ 15 * f + half_xtal * 2 ^ 15 ≤ set_freq_times f + 1000 * 2 ^ 15 + half_xtal)
    near = fraction-near f (omega (arith, high))

abbrev pub programmed : ℕ → ℕ
programmed freq = stands_for (vco_freq freq)

abbrev pub wanted : ℕ → ℕ
wanted freq = 2 ^ 15 * (freq * (choose_divider freq).multi) + half_xtal * 2 ^ 15

-- With the crystal of 28.8 MHz and a frequency from 22 MHz to just below 948.6 MHz, the values for
-- registers 1 and 2 of the FC0012 pass the check on the PLL, and the frequency of the VCO that
-- registers 1 to 4 stand for, rounded divider and signed fraction together, is the multiple of the
-- frequency that was asked for, or below it by no more than the 1000 Hz and the step of 2^-15 of
-- the divider that are cut off.
pub programmed-near :
    (freq : ℕ)
    → 22000000 ≤ freq
    → freq < 948600000
    → ((regs_for (vco_freq freq)).0 ≤ 15)
      × (11 ≤ (regs_for (vco_freq freq)).1)
      × (programmed freq ≤ wanted freq)
      × (wanted freq ≤ programmed freq + 1000 * 2 ^ 15 + half_xtal)
programmed-near freq low high = (
  found.0,
  found.1,
  omega (arith, found.2, vco_freq-exact freq (omega arith)),
  omega (arith, found.3, vco_freq-exact freq (omega arith)),
)
  where
    range : (1900000000 ≤ vco_freq freq) × (vco_freq freq ≤ 3794399999)
    range = omega (arith, vco_range freq low high)

    found :
        ((regs_for (vco_freq freq)).0 ≤ 15)
        × (11 ≤ (regs_for (vco_freq freq)).1)
        × (stands_for (vco_freq freq) ≤ 2 ^ 15 * vco_freq freq + half_xtal * 2 ^ 15)
        × (2 ^ 15 * vco_freq freq + half_xtal * 2 ^ 15
            ≤ stands_for (vco_freq freq) + 1000 * 2 ^ 15 + half_xtal)
    found = regs_near (vco_freq freq) range.0 range.1
