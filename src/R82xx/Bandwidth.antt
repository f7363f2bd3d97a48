-- ===== src/R82xx/Bandwidth.antt =====
-- src/tuner_r82xx.c, `r82xx_set_bandwidth`: the IF filter and the intermediate frequency.
pub mod Laws
use rtl_sdr_blog.Common.{
  Bool, List, Option, [], bit_or, get_or, if◌then◌else◌, ltb, none, some, suc, zero, ℕ, ◌+◌, ◌-◌,
  ◌/◌, ◌∷◌,
}
use rtl_sdr_blog.Common.Word.{u8}
use rtl_sdr_blog.Common.Int.{pos_part, ℤ}
use rtl_sdr_blog.State.{Host, M, modify_r82xx, or_stuck, pure, ◌>>=◌, ◌>>◌}
use rtl_sdr_blog.R82xx.Tables.{if_low_pass_bw_table}
use rtl_sdr_blog.R82xx.Regs.{masked, write_all, write_reg_mask}

abbrev pub filt_hp_bw1 : ℕ
filt_hp_bw1 = 350000

abbrev pub filt_hp_bw2 : ℕ
filt_hp_bw2 = 380000

pub record Filter : Type 0 where
  pub reg_0a : ℕ
  pub reg_0b : ℕ
  pub int_freq : ℕ

-- The loop over the low-pass table: the first index whose entry is below `bw`, or the length.
unfoldable pub first_below : ℕ → List ℕ → ℕ
first_below bw [] = 0
first_below bw (x ∷ xs) = if ltb x bw then 0 else suc (first_below bw xs)

-- `--i` on an unsigned index, and the table read that follows: `none` for an index out of range.
unfoldable pub low_pass_index : ℕ → Option ℕ
unfolding first_below
low_pass_index bw = elim (first_below bw if_low_pass_bw_table) [ zero ↦ none | suc i ↦ some i ]

-- The filter once the two high-pass corners are chosen; `bw` is what they leave.
unfoldable pub low_pass : ℕ → ℕ → ℕ → ℕ → Option Filter
unfolding low_pass_index
low_pass bw real_bw int_freq reg_0b = elim (low_pass_index bw) [
  | none ↦ none
  | some i ↦ some (record {
    reg_0a = 0x00;
    reg_0b = bit_or reg_0b (u8 (15 - i));
    int_freq = int_freq - (real_bw + get_or if_low_pass_bw_table i 0) / 2;
  })
]

-- The second corner.
unfoldable pub high_pass1 : ℕ → ℕ → ℕ → ℕ → Option Filter
unfolding low_pass
high_pass1 bw real_bw int_freq reg_0b =
    if ltb 1700000 bw
    then low_pass (bw - filt_hp_bw1) (real_bw + filt_hp_bw1) (int_freq + filt_hp_bw1) reg_0b
    else low_pass bw real_bw int_freq (bit_or reg_0b 0x40)

-- A negative `bw` passes no test and is never reduced, as 0.
unfoldable pub choose_filter : ℕ → Option Filter
unfolding high_pass1
choose_filter bw =
    if ltb 7000000 bw
    then some (record { reg_0a = 0x10; reg_0b = 0x0b; int_freq = 4570000 })
    else if ltb 6000000 bw
    then some (record { reg_0a = 0x10; reg_0b = 0x2a; int_freq = 4570000 })
    else if ltb (1700000 + filt_hp_bw1 + filt_hp_bw2) bw
    then some (record { reg_0a = 0x10; reg_0b = 0x6b; int_freq = 3570000 })
    else if ltb (1700000 + filt_hp_bw1) bw
    then high_pass1 (bw - filt_hp_bw2) filt_hp_bw2 (2300000 + filt_hp_bw2) 0x80
    else high_pass1 bw 0 2300000 (bit_or 0x80 0x20)

module _ (host : Host) where
  unfoldable pub set_bandwidth : ℤ → M ℕ
  set_bandwidth bw = do
    f ← or_stuck (choose_filter (pos_part bw))
    modify_r82xx (λ q. record q { int_freq = f.int_freq })
    write_all host (masked 0x0a f.reg_0a 0x10 ∷ masked 0x0b f.reg_0b 0xef ∷ [])
    pure f.int_freq

  unfoldable pub toggle_test : Bool → M (Unit {0})
  toggle_test toggle =
      if toggle then write_reg_mask host 0x17 0x08 0x08 else write_reg_mask host 0x17 0x00 0x08
