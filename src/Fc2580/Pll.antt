-- ===== src/Fc2580/Pll.antt =====
-- The PLL of the FC2580 is set to the frequency without a rest.
use rtl_sdr_blog.Common.{
  Bool-cases, List, [], arith, if◌then◌else◌, inl, inr, leb, refl, ℕ, ◌%◌, ◌*◌, ◌+◌, ◌/◌, ◌<◌, ◌^◌,
  ◌∷◌, ◌≡◌, ◌≤◌,
}
use rtl_sdr_blog.Common.Word.{u8}
use rtl_sdr_blog.Fc2580.{band_mult, band_of, crystal_freq_khz, k_of, n_of, pll_for, r_of, vco_of}

-- The divider of the crystal that register 0x18 stands for.
abbrev pub divider_of : ℕ → ℕ
divider_of reg = if leb 0x20 reg then 4 else if leb 0x10 reg then 2 else 1

-- The frequency of the VCO times 2^20, in kHz, that the values of the registers 0x18, 0x1a, 0x1b
-- and 0x1c stand for.
abbrev pub stands_for : ℕ → ℕ → ℕ → ℕ → ℕ
stands_for r18 r1a r1b r1c =
    2 * (16384 / divider_of r18) * (r1c * 2 ^ 20 + r18 % 16 * 2 ^ 16 + r1a * 2 ^ 8 + r1b)

abbrev pub IsSetTo : ℕ → List (ℕ × ℕ) → Type 0
IsSetTo f_vco ((a, r18) ∷ (b, r1a) ∷ (c, r1b) ∷ (d, r1c) ∷ []) =
    (stands_for r18 r1a r1b r1c ≡ f_vco * 2 ^ 20)
    × (a ≡ 0x18)
    × (b ≡ 0x1a)
    × (c ≡ 0x1b)
    × (d ≡ 0x1c)
IsSetTo f_vco regs = ⊥

-- With a crystal of 16384 kHz over a power of two the fraction has no rest.
k_exact_1 : (f : ℕ) → f < 2 ^ 23 → k_of f 16384 ≡ f % 32768 * 32
unfolding k_of n_of
k_exact_1 f h = ground arith

k_exact_2 : (f : ℕ) → f < 2 ^ 23 → k_of f 8192 ≡ f % 16384 * 64
unfolding k_of n_of
k_exact_2 f h = ground arith

k_exact_4 : (f : ℕ) → f < 2 ^ 23 → k_of f 4096 ≡ f % 8192 * 128
unfolding k_of n_of
k_exact_4 f h = ground arith

-- The bytes of a fraction below 2^20, under the bits of the divider.
packed :
    (r k : ℕ)
    → r ≤ 2
    → k < 2 ^ 20
    → u8 (16 * r + u8 (k / 2 ^ 16)) % 16 * 2 ^ 16 + u8 (k / 2 ^ 8) * 2 ^ 8 + u8 k ≡ k
packed r k h l = omega arith

divider_1 : (k : ℕ) → k < 2 ^ 20 → divider_of (u8 (0 + u8 (k / 2 ^ 16))) ≡ 1
divider_1 k h = ground arith

divider_2 : (k : ℕ) → k < 2 ^ 20 → divider_of (u8 (16 + u8 (k / 2 ^ 16))) ≡ 2
divider_2 k h = ground arith

divider_4 : (k : ℕ) → k < 2 ^ 20 → divider_of (u8 (32 + u8 (k / 2 ^ 16))) ≡ 4
divider_4 k h = ground arith

vco_of-exact :
    (f_lo : ℕ)
    → f_lo < 2 ^ 22
    → (vco_of f_lo ≡ f_lo * band_mult (band_of f_lo)) × (vco_of f_lo < 2 ^ 23)
unfolding vco_of band_of
vco_of-exact f_lo h = ground arith

joined_1 :
    (f : ℕ)
    → f < 2 ^ 23
    → stands_for
        (u8 (0 + u8 (f % 32768 * 32 / 2 ^ 16)))
        (u8 (f % 32768 * 32 / 2 ^ 8))
        (u8 (f % 32768 * 32))
        (u8 (f / 2 / 16384))
      ≡ f * 2 ^ 20
joined_1 f h =
    rw (divider_1 (f % 32768 * 32) (omega arith)) (omega (arith, packed 0 (f % 32768 * 32)))

joined_2 :
    (f : ℕ)
    → f < 2490368
    → stands_for
        (u8 (16 + u8 (f % 16384 * 64 / 2 ^ 16)))
        (u8 (f % 16384 * 64 / 2 ^ 8))
        (u8 (f % 16384 * 64))
        (u8 (f / 2 / 8192))
      ≡ f * 2 ^ 20
joined_2 f h =
    rw (divider_2 (f % 16384 * 64) (omega arith)) (omega (arith, packed 1 (f % 16384 * 64)))

joined_4 :
    (f : ℕ)
    → f < 1245184
    → stands_for
        (u8 (32 + u8 (f % 8192 * 128 / 2 ^ 16)))
        (u8 (f % 8192 * 128 / 2 ^ 8))
        (u8 (f % 8192 * 128))
        (u8 (f / 2 / 4096))
      ≡ f * 2 ^ 20
joined_4 f h =
    rw (divider_4 (f % 8192 * 128) (omega arith)) (omega (arith, packed 2 (f % 8192 * 128)))

for_vco : (f : ℕ) → f < 2 ^ 23 → IsSetTo f (pll_for f crystal_freq_khz)
unfolding pll_for r_of n_of
for_vco f h = elim (Bool-cases (leb 2490368 f)) [
  | inl fast ↦ rw (fast, k_exact_1 f h) (joined_1 f h, refl, refl, refl, refl)
  | inr slow ↦ elim (Bool-cases (leb 1245184 f)) [
    | inl half ↦ rw (slow, half, k_exact_2 f h) (joined_2 f (ground arith), refl, refl, refl, refl)
    | inr quarter ↦
        rw (slow, quarter, k_exact_4 f h) (joined_4 f (ground arith), refl, refl, refl, refl)
  ]
]

-- For any frequency below 2^22 kHz the frequency of the VCO of the FC2580 is its multiple for the
-- band, and the values that are written to the registers 0x18, 0x1a, 0x1b and 0x1c stand for
-- exactly that frequency, with no rest of the fraction.
pub pll_for-IsSetTo :
    (f_lo : ℕ)
    → f_lo < 2 ^ 22
    → (vco_of f_lo ≡ f_lo * band_mult (band_of f_lo))
      × IsSetTo (vco_of f_lo) (pll_for (vco_of f_lo) crystal_freq_khz)
pll_for-IsSetTo f_lo h = ((vco_of-exact f_lo h).0, for_vco (vco_of f_lo) (vco_of-exact f_lo h).1)
