-- ===== src/R82xx/Bandwidth/Laws.antt =====
-- The table search of `r82xx_set_bandwidth` stays inside the table.
use rtl_sdr_blog.Common.{
  Bool-cases, Option, arith, bit_or, inl, inr, ltb, min, none, refl, some, ℕ, ◌*◌, ◌+◌, ◌-◌, ◌/◌,
  ◌<◌, ◌≡◌, ◌≤◌,
}
use rtl_sdr_blog.R82xx.Bandwidth.{
  Filter, choose_filter, filt_hp_bw1, filt_hp_bw2, first_below, high_pass1, low_pass,
}
use native.Mathlib.Decide.{dec_lt}

-- A filter is chosen, its intermediate frequency is at most 4.57 MHz, and its band reaches from
-- above 0 Hz to above `bw`: it begins at `int_freq - bw / 2`.
abbrev pub Suits : ℕ → Option Filter → Type 0
Suits bw none = ⊥
Suits bw (some f) = (f.int_freq ≤ 4570000) × (min bw 7000000 < 2 * f.int_freq)

-- The low-pass filter takes at most half of 1.7 MHz off the frequency.
abbrev Lowered : ℕ → ℕ → Option Filter → Type 0
Lowered real_bw int_freq none = ⊥
Lowered real_bw int_freq (some f) =
    (f.int_freq ≤ int_freq) × (int_freq ≤ f.int_freq + (real_bw + 1700000) / 2)

low_pass-Lowered :
    (bw real_bw int_freq reg_0b : ℕ)
    → bw ≤ 1700000
    → Lowered real_bw int_freq (low_pass bw real_bw int_freq reg_0b)
unfolding low_pass first_below
low_pass-Lowered bw real_bw int_freq reg_0b h = ground arith

Suits-of_Lowered :
    (bw real_bw int_freq : ℕ) (o : Option Filter)
    → Lowered real_bw int_freq o
    → int_freq ≤ 4570000
    → bw + (real_bw + 1700002) < 2 * int_freq
    → Suits bw o
Suits-of_Lowered bw real_bw int_freq none l h k = l
Suits-of_Lowered bw real_bw int_freq (some f) l h k = omega arith

high_pass1-Suits :
    (bw real_bw reg_0b : ℕ)
    → bw ≤ 2050000
    → real_bw ≤ 380000
    → Suits (bw + real_bw) (high_pass1 bw real_bw (2300000 + real_bw) reg_0b)
unfolding high_pass1
high_pass1-Suits bw real_bw reg_0b h k = elim (Bool-cases (ltb 1700000 bw)) [
  | inl wide ↦ rw wide (
      Suits-of_Lowered (bw + real_bw) (real_bw + filt_hp_bw1) (2300000 + real_bw + filt_hp_bw1) _
        (low_pass-Lowered (bw - filt_hp_bw1) (real_bw + filt_hp_bw1)
          (2300000 + real_bw + filt_hp_bw1) reg_0b (omega arith))
        (omega arith) (omega arith))
  | inr narrow ↦ rw narrow (
      Suits-of_Lowered (bw + real_bw) real_bw (2300000 + real_bw) _
        (low_pass-Lowered bw real_bw (2300000 + real_bw) (bit_or reg_0b 0x40) (ground arith))
        (omega arith) (ground arith))
]

pub choose_filter-Suits : (bw : ℕ) → Suits bw (choose_filter bw)
unfolding choose_filter
choose_filter-Suits bw = elim (dec_lt 2430000 bw) [
  | yes wide ↦ ground arith
  | no narrow ↦ elim (dec_lt 2050000 bw) [
    | yes mid ↦ ground (arith, high_pass1-Suits (bw - filt_hp_bw2) filt_hp_bw2 0x80)
    | no low ↦ ground (arith, high_pass1-Suits bw 0 (bit_or 0x80 0x20))
  ]
]

pub choose_filter_ends : (bw : ℕ) → (f : Filter) × (choose_filter bw ≡ some f)
choose_filter_ends bw = of_Suits (choose_filter bw) refl (choose_filter-Suits bw)
  where
    of_Suits :
        (r : Option Filter)
        → choose_filter bw ≡ r
        → Suits bw r
        → (f : Filter) × (choose_filter bw ≡ some f)
    of_Suits none e h = absurd h
    of_Suits (some f) e h = (f, e)
